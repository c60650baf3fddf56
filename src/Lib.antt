-- ===== src/Lib.antt =====
-- Cluster Genesis (POWER-Up) configures a cluster from a file: it reads the configuration, sets up
-- the deployer's networks and the switches, learns which node is behind which switch port, keeps
-- the result in an inventory file, and gives the nodes their addresses. The scripts share two
-- objects, the configuration and the inventory, and each script runs on the nodes that the
-- inventory then holds.
--
-- Which file models what:
-- - Config and the files below it: scripts/python/lib/config.py. A configuration is the tree of
--   values that the YAML loader gives (Base/Value.antt), read by attribute, item, `in`, `len` and
--   iteration (Config/Access.antt). Each getter has its name in the source; a getter with an
--   optional index takes an `Option ℕ`, and one that yields returns the list of what it yields.
--   Config/Masks.antt has the getters' conversion of netmasks and prefixes; the library netaddr is
--   a parameter there.
-- - Inventory and the files below it: scripts/python/lib/inventory.py. A node has three groups of
--   parallel lists, one for each interface type. `_add_macs` and `_add_ipaddrs` are
--   Inventory/Macs.antt: loops that stop at the first exception and keep what was written before
--   it; the methods around them write the inventory file only behind a loop that returned.
--   Inventory/Lookup.antt has `get_port_mac_ip`, the checks and `get_data_interfaces`.
--   Inventory/Columns.antt has the lists that a new inventory is built from, with the methods that
--   append to them, `_flatten` and `update_nodes`, which writes the nodes.
-- - Items and the files below it: scripts/python/lib/inv_items.py. Items.antt is
--   `_assign_interface_ips`: the lists of addresses are a dict that is handed from one node to the
--   next. Items/Pools.antt is `_gen_interface_ip_lists`, Items/PortRows.antt and Items/Create.antt
--   are the rounds and the loops of `create_nodes`, and Items/Build.antt is `create_nodes` and the
--   part of scripts/python/inv_create.py that creates the nodes. Items/Wired.antt says which
--   switches and ports the configuration gives each node. The ranges and addresses of the library
--   netaddr are parameters.
-- - Reserve and the files below it: scripts/python/inv_reserve_ipmi_pxe_ips.py.
--   Reserve/Manager.antt is `IPManager`, over the library netaddr as a parameter (addresses with
--   values, and an addition that raises beyond the last address). Reserve/Assign.antt is the choice
--   of the one or two managers and the loop over the hosts; one manager under two names is
--   `shared`. What the loop does outside is a list of effects. Reserve/Wait.antt is the `while`
--   that asks the BMCs.
-- - Validate and the files below it: scripts/python/lib/validate_config_logic.py. Validate.antt is
--   the check of the physical interfaces of the node templates; its state is the complaints so far
--   and the ports of each switch. Validate/Networks.antt, Hosts and Images have the other checks,
--   Validate/Aliased.antt reads the entries from the loaded configuration and makes the change that
--   the check makes to it, and Validate/Logic.antt runs all of them one after the other. The names
--   of the images and the network of an address are parameters.
-- - Switch and the files below it: scripts/python/lib/switch_common.py, which
--   scripts/python/lib/cisco.py has as it is. A switch object is a `Session`: its mode, the file of
--   passive mode and the device. The lock file and the SSH connection are the parameter `Remote`:
--   attempts to take the lock, its release, and a command's answer or the exception that it raises,
--   which leaves `send_cmd` before the release. Each method of the class is the definition of its
--   name, in Switch/Send.antt, Ports, Trunk, Vlans, Interfaces and Channels; Switch/Commands.antt
--   has the command texts, and Answers, Allowed and Summary read the answers. Switch/Reports.antt
--   is what the theorems on methods that read back their effect rely on: a device that answers from
--   its configuration, that a show command does not change.
-- - DataSwitch and the files below it: scripts/python/configure_data_switches.py, from the loaded
--   configuration to the calls for its VLANs and MTUs, the list of the port channels from the
--   configuration, and the loops over a given tree of port channels. The calls of the switch
--   objects go to a parameter that may do anything, raising included, and are kept in the order in
--   which they were made. DataSwitch/Vlans.antt is the list of the VLANs, Mtus that of the MTUs,
--   PortGroups that of the port channels, PortVlans the aggregation by port and the lookups, and
--   Program, Channels and Deconfigure are the loops; the groups of an MLAG tree are a zip object or
--   the list of what one gave, as in Python 3.
-- - Base and Exec: Python's values, exceptions, lists and dicts. A function that may raise returns
--   a `Result`; a method that changes an object and may raise is an `Exec`, which returns the
--   object beside the exception.
-- - Tests: concrete inputs.
--
-- Bounds: numbers have no bound, as in Python, and negative list indices do not occur in the code
-- that is modelled. The decimal print of a number has as much fuel as the number plus one, which
-- is more than it has digits. A search by a pattern has the length of the text as fuel for its
-- repetitions, of which each round takes a character; so have a split and the search for all
-- matches. The rounds of the `while` in Reserve/Wait.antt are a list: the answers of the rounds
-- for which there is time. All other loops are over lists.
--
-- Not modelled: the logs (some of the switch methods only log that a command had no effect); what
-- becomes of a lock object that an exception leaves taken; signs, blanks and underscores in the
-- texts that `int` reads, which the modelled texts do not have; the calls of processes, of SSH, of
-- Cobbler and of BMCs beyond their answers; the files that are written, beyond the inventory's
-- content; the credentials and the PXE MAC that the loop over the hosts reads for the log; the
-- parser of the switches' MAC tables and the methods that the classes Lenovo and Mellanox have of
-- their own; the first setup of MLAG on the pairs in the data switch script, which comes before
-- their port channels; the switches of the inventory; and the other scripts of the repository: the
-- installer of operating systems and software, and the schema of a configuration.
pub mod Base
pub mod Config
pub mod DataSwitch
pub mod Exec
pub mod Inventory
pub mod Items
pub mod Reserve
pub mod Switch
pub mod Tests
pub mod Validate
