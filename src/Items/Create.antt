-- ===== src/Items/Create.antt =====
-- scripts/python/lib/inv_items.py: the lists of addresses of the configuration, and `create_nodes`,
-- which makes a node of each port of a node template's first IPMI interface.
use cluster_genesis.Base.{
  Dict, ℕ, ◌+◌, none, some, List, [], ◌∷◌, map, nat_eq, option_eq, Text, text_eq, each,
}
use cluster_genesis.Base.Value.{Value, port_eq, null, list, dict}
use cluster_genesis.Config.Access.{to_values, as_text}
use cluster_genesis.Config.Templates.Ifcs.{yield_ntmpl_phyintf_data_ind}
use cluster_genesis.Config.Templates.Ipmi.{
  yield_ntmpl_phyintf_ipmi_ind, get_ntmpl_phyintf_ipmi_switch, yield_ntmpl_phyintf_ipmi_pt_ind,
}
use cluster_genesis.Config.Templates.Lists.{get_ntmpl_label}
use cluster_genesis.Config.Templates.Settings.{
  get_ntmpl_ipmi_userid, get_ntmpl_ipmi_password, get_ntmpl_bmc_type, get_ntmpl_os_dict,
  get_ntmpl_os_hostname_prefix, get_ntmpl_roles,
}
use cluster_genesis.Config.Templates.Read.{fields_of, labelled, ntmpl_interfaces}
use cluster_genesis.Config.Switches.Labels.{get_sw_mgmt_index_by_label}
use cluster_genesis.Inventory.Columns.{
  Columns, add_nodes_hostname, add_nodes_label, add_nodes_os_dict, add_nodes_rack_id,
  add_nodes_bmc_type, add_nodes_switches_ipmi, add_nodes_switches_pxe, add_nodes_switches_data,
  add_nodes_ports_ipmi, add_nodes_ports_pxe, add_nodes_ports_data, add_nodes_macs_ipmi,
  add_nodes_macs_pxe, add_nodes_macs_data, add_nodes_ipaddrs_ipmi, add_nodes_ipaddrs_pxe,
  add_nodes_userid_ipmi, add_nodes_password_ipmi, add_nodes_devices_pxe, add_nodes_devices_data,
  add_nodes_roles, add_nodes_rename_data, add_nodes_rename_pxe, add_nodes_interfaces,
}
use cluster_genesis.Items.{Pools, assign_interface_ips}
use cluster_genesis.Items.PortRows.{
  PortRow, DataRow, port_row, data_row, column_of, host_name, rack_of,
}
use cluster_genesis.Reserve.Manager.{Netaddr}
use cluster_genesis.Exec.{Exec, pure, lift, modify, ◌>>=◌, ◌>>◌}

-- Label to roles of a node.
unfoldable pub add_identity : Value → ℕ → Value → Value → Value → ℕ → Exec Columns (Unit {0})
unfolding host_name rack_of get_ntmpl_os_dict get_ntmpl_roles
add_identity cfg index_ntmplt label hostname bmc_type index_host = do
  modify (add_nodes_label label)
  host ← lift (host_name hostname index_host)
  modify (add_nodes_hostname host)
  modify (add_nodes_bmc_type bmc_type)
  rack_id ← lift (rack_of cfg index_ntmplt)
  modify (add_nodes_rack_id rack_id)
  os_dict ← lift (get_ntmpl_os_dict cfg (some index_ntmplt))
  modify (add_nodes_os_dict os_dict)
  roles ← lift (get_ntmpl_roles cfg index_ntmplt none)
  modify (add_nodes_roles roles)

-- The lists of the IPMI and PXE interfaces, of which the MACs and addresses are not known.
unfoldable pub add_port_lists : List PortRow → Columns → Columns
add_port_lists rows c =
    let unknown = column_of (λ (r : PortRow). null) rows in
    let c1 = add_nodes_switches_ipmi (column_of (λ (r : PortRow). r.switch_ipmi) rows) c in
    let c2 = add_nodes_switches_pxe (column_of (λ (r : PortRow). r.switch_pxe) rows) c1 in
    let c3 = add_nodes_ports_ipmi (column_of (λ (r : PortRow). r.port_ipmi) rows) c2 in
    let c4 = add_nodes_ports_pxe (column_of (λ (r : PortRow). r.port_pxe) rows) c3 in
    let c5 = add_nodes_macs_ipmi unknown c4 in
    let c6 = add_nodes_macs_pxe unknown c5 in
    let c7 = add_nodes_ipaddrs_ipmi unknown c6 in
    let c8 = add_nodes_ipaddrs_pxe unknown c7 in
    add_nodes_rename_pxe (column_of (λ (r : PortRow). r.rename_pxe) rows) c8

unfoldable pub add_ports : Value → ℕ → ℕ → Exec Columns (Unit {0})
unfolding yield_ntmpl_phyintf_ipmi_ind port_row add_port_lists get_ntmpl_ipmi_userid
    get_ntmpl_ipmi_password
add_ports cfg index_ntmplt index_port = do
  inds ← lift (yield_ntmpl_phyintf_ipmi_ind cfg index_ntmplt)
  rows ← lift (each (port_row cfg index_ntmplt index_port) inds)
  modify (add_port_lists rows)
  userid ← lift (get_ntmpl_ipmi_userid cfg (some index_ntmplt))
  modify (add_nodes_userid_ipmi userid)
  password ← lift (get_ntmpl_ipmi_password cfg (some index_ntmplt))
  modify (add_nodes_password_ipmi password)
  modify (add_nodes_devices_pxe (column_of (λ (r : PortRow). r.device_pxe) rows))

unfoldable pub add_data_lists : List DataRow → Columns → Columns
add_data_lists rows c =
    let c1 = add_nodes_switches_data (column_of (λ (r : DataRow). r.switch) rows) c in
    let c2 = add_nodes_ports_data (column_of (λ (r : DataRow). r.port) rows) c1 in
    let c3 = add_nodes_macs_data (column_of (λ (r : DataRow). null) rows) c2 in
    let c4 = add_nodes_devices_data (column_of (λ (r : DataRow). r.device) rows) c3 in
    add_nodes_rename_data (column_of (λ (r : DataRow). r.rename) rows) c4

unfoldable pub add_data : Value → ℕ → ℕ → Exec Columns (Unit {0})
unfolding yield_ntmpl_phyintf_data_ind data_row add_data_lists
add_data cfg index_ntmplt index_port = do
  inds ← lift (yield_ntmpl_phyintf_data_ind cfg index_ntmplt)
  rows ← lift (each (data_row cfg index_ntmplt index_port) inds)
  modify (add_data_lists rows)

module _ (net : Netaddr) where
  open net use {Ip}

  -- The interfaces with their addresses, and the lists that are left.
  unfoldable pub add_interfaces : Value → ℕ → Pools net → Exec Columns (Pools net)
  unfolding ntmpl_interfaces labelled assign_interface_ips
  add_interfaces cfg index_ntmplt pools = do
    interfaces ← lift (ntmpl_interfaces cfg index_ntmplt)
    entries ← lift (each labelled interfaces)
    (assigned, pools') ← lift (assign_interface_ips net entries pools)
    modify (
        add_nodes_interfaces
          (list (to_values (map (λ (e : Text × Dict Text Value). dict (fields_of e.1)) assigned))))
    pure pools'

  -- A client system.
  unfoldable pub create_node :
      Value → ℕ → Value → Value → Value → ℕ → ℕ → Pools net → Exec Columns (Pools net)
  unfolding add_identity add_ports add_data add_interfaces
  create_node cfg index_ntmplt label hostname bmc_type index_host index_port pools = do
    _ ← add_identity cfg index_ntmplt label hostname bmc_type index_host
    _ ← add_ports cfg index_ntmplt index_port
    _ ← add_data cfg index_ntmplt index_port
    add_interfaces cfg index_ntmplt pools

  unfoldable pub create_hosts :
      Value → ℕ → Value → Value → Value → ℕ → List ℕ → Pools net → Exec Columns (Pools net)
  unfolding create_node
  create_hosts cfg index_ntmplt label hostname bmc_type index_host [] pools = pure pools
  create_hosts cfg index_ntmplt label hostname bmc_type index_host (index_port ∷ ports) pools = do
    pools' ← create_node cfg index_ntmplt label hostname bmc_type index_host index_port pools
    create_hosts cfg index_ntmplt label hostname bmc_type (index_host + 1) ports pools'

  abbrev pub or_label : Value → Value → Value
  or_label null label = label
  or_label hostname label = hostname

  unfoldable pub create_template : Value → ℕ → Pools net → Exec Columns (Pools net)
  unfolding create_hosts get_ntmpl_label get_ntmpl_os_hostname_prefix get_ntmpl_bmc_type rack_of
      yield_ntmpl_phyintf_ipmi_pt_ind get_ntmpl_phyintf_ipmi_switch get_sw_mgmt_index_by_label
      as_text
  create_template cfg index_ntmplt pools = do
    label ← lift (get_ntmpl_label cfg (some index_ntmplt))
    hostname ← lift (get_ntmpl_os_hostname_prefix cfg (some index_ntmplt))
    bmc_type ← lift (get_ntmpl_bmc_type cfg (some index_ntmplt))
    switch ← lift (get_ntmpl_phyintf_ipmi_switch cfg index_ntmplt (some 0))
    switch_label ← lift (as_text switch)
    _ ← lift (get_sw_mgmt_index_by_label cfg switch_label)
    ports ← lift (yield_ntmpl_phyintf_ipmi_pt_ind cfg index_ntmplt 0)
    create_hosts cfg index_ntmplt label (or_label hostname label) bmc_type 0 ports pools

  unfoldable pub create_templates : Value → List ℕ → Pools net → Exec Columns (Pools net)
  unfolding create_template
  create_templates cfg [] pools = pure pools
  create_templates cfg (index_ntmplt ∷ inds) pools = do
    pools' ← create_template cfg index_ntmplt pools
    create_templates cfg inds pools'
