-- ===== src/Tests/Build.antt =====
-- The inventory of a small configuration: one node template with two nodes.
use cluster_genesis.Base.{
  ℕ, ◌≡◌, refl, some, List, [], ◌∷◌, if◌then◌else◌, nat_eq, option_eq, length, get_elem?, All, Text,
  codes, text_beq, text_eq, Result, ◌>>=◌, value_error, ok, err,
}
use cluster_genesis.Base.Value.{Value, Fields, port_eq, int, str}
use cluster_genesis.Items.Wired.{Wiring, Wired, all_wirings}
use cluster_genesis.Validate.Hosts.{port_hosts, template_hosts, add_hosts, get_valid_hosts}
use cluster_genesis.Validate.Bootstrap.{Known, create_nodes-Known}
use cluster_genesis.Items.Named.{inventory_hosts}
use cluster_genesis.Items.{list_key, next_ip}
use cluster_genesis.Config.Templates.Interfaces.{
  all_defined, placed, place, collect_labels, nones, strip_addresses, replace_key, delete,
  until_underscore,
}
use cluster_genesis.Config.Templates.Pxe.{get_ntmpl_phyintf_pxe_interface}
use cluster_genesis.Config.Templates.Ipmi.{
  get_ntmpl_phyintf_ipmi_pt_cnt, get_ntmpl_phyintf_ipmi_cnt,
}
use cluster_genesis.Config.Switches.Labels.{index_by_label}
use cluster_genesis.Inventory.Columns.{Columns, no_nodes}
use cluster_genesis.Tests.Yaml.{obj, many}
use cluster_genesis.Tests.Reserve.{ipv4}
use cluster_genesis.Items.Build.{create_nodes, create}
use cluster_genesis.Config.Templates.{node_template, physical_interface}
use cluster_genesis.Config.Access.{
  attr, get_key, iterate, get_index, len, key_in, path, member_value, get_members,
}
use cluster_genesis.Config.Templates.Ifcs.{get_interfaces}
use cluster_genesis.Items.Create.{create_node, create_hosts, create_template, create_templates}
use cluster_genesis.Config.Templates.Lists.{yield_ntmpl_ind, get_ntmpl_cnt}
use cluster_genesis.Inventory.Columns.Places.{places, same, top}
use cluster_genesis.Inventory.Columns.Written.{read_at}
use cluster_genesis.Items.Inventoried.{unfilled, create_nodes_correct}
use cluster_genesis.Items.Complete.{host_count}

named : Text → List (Text × Value) → Value
named label rest = obj ((codes "label", str label) ∷ rest)

plugged : Text → List (Text × Value) → Value
plugged switch rest = obj ((codes "switch", str (codes "leaf")) ∷ rest)

template : Value
unfolding named plugged
template = named (codes "node") (
    (
      codes "ipmi",
      obj ((codes "userid", str (codes "root")) ∷ (codes "password", str (codes "pw")) ∷ []),
    )
    ∷ (codes "roles", many (str (codes "compute") ∷ []))
    ∷ (codes "os", obj ((codes "hostname_prefix", str (codes "n")) ∷ []))
    ∷ (
      codes "physical_interfaces",
      obj (
          (
            codes "ipmi",
            many (plugged (codes "leaf") ((codes "ports", many (int 1 ∷ int 3 ∷ [])) ∷ []) ∷ []),
          )
          ∷ (
            codes "pxe",
            many (
                plugged (codes "leaf") (
                  (codes "interface", str (codes "eth"))
                  ∷ (codes "ports", many (int 2 ∷ int 4 ∷ []))
                  ∷ [])
                ∷ []),
          )
          ∷ []),
    )
    ∷ [])

cfg : Value
unfolding template named
cfg = obj (
    (
      codes "switches",
      obj (
          (
            codes "mgmt",
            many (named (codes "leaf") ((codes "rack_id", str (codes "r1")) ∷ []) ∷ []),
          )
          ∷ []),
    )
    ∷ (
      codes "interfaces",
      many (
          named (codes "eth") (
            (codes "iface", str (codes "eth0"))
            ∷ (codes "address_list", many (str (codes "10.0.0.5-10.0.0.6") ∷ []))
            ∷ [])
          ∷ []),
    )
    ∷ (codes "node_templates", many (template ∷ []))
    ∷ [])

-- Two addresses, whatever the range, and no start address.
ip_range : Text → Text → Result (List ℕ)
ip_range a b = ok (5 ∷ 6 ∷ [])

ip_address : Value → Result ℕ
ip_address v = err value_error

columns : Columns
unfolding create_nodes
columns = (create_nodes ipv4 ip_range ip_address cfg no_nodes).1

returns : create_nodes ipv4 ip_range ip_address cfg no_nodes ≡ (ok tt, columns)
unfolding create_nodes columns cfg ip_range obj path attr iterate len get_index get_key get_members
    member_value key_in node_template physical_interface text_beq get_interfaces create_templates
    create_template create_hosts create_node get_ntmpl_cnt index_by_label
    get_ntmpl_phyintf_ipmi_pt_cnt get_ntmpl_phyintf_ipmi_cnt get_ntmpl_phyintf_pxe_interface
    all_defined placed place collect_labels nones strip_addresses replace_key delete
    until_underscore list_key next_ip
returns = refl

second_name :
    ((create ipv4 ip_range ip_address cfg).1 >>= λ nodes.
    ok (read_at nodes (top (codes "hostname")) 1))
    ≡ ok (some (str (codes "n-2")))
unfolding create create_nodes columns cfg ip_range obj path attr iterate len get_index get_key
    get_members member_value key_in node_template physical_interface text_beq get_interfaces
    create_templates create_template create_hosts create_node get_ntmpl_cnt index_by_label
    get_ntmpl_phyintf_ipmi_pt_cnt get_ntmpl_phyintf_ipmi_cnt get_ntmpl_phyintf_pxe_interface
    all_defined placed place collect_labels nones strip_addresses replace_key delete
    until_underscore list_key next_ip
second_name = refl

create_nodes_correct_example :
    (hosts : ℕ) × ((yield_ntmpl_ind cfg >>= host_count cfg) ≡ ok hosts)
    × (nodes : List Fields) × (create ipv4 ip_range ip_address cfg ≡ (ok tt, ok nodes))
    × (length nodes ≡ hosts)
    × All
        (λ e.
          (length e.1 ≡ (if same unfilled e.0 then 0 else hosts))
          × ((i : ℕ) → read_at nodes e.0 i ≡ get_elem? e.1 i))
        (places columns)
    × (ws : List Wiring) × ((yield_ntmpl_ind cfg >>= all_wirings cfg) ≡ ok ws)
    × Wired columns ws
create_nodes_correct_example = create_nodes_correct ipv4 ip_range ip_address cfg columns returns

-- The hosts that the software bootstrap may name.
hosts : List Value
hosts =
    str (codes "all")
    ∷ str (codes "node")
    ∷ str (codes "n-1")
    ∷ str (codes "n-2")
    ∷ str (codes "compute")
    ∷ []

hosts_valid : get_valid_hosts cfg ≡ ok hosts
unfolding get_valid_hosts add_hosts template_hosts port_hosts hosts cfg obj path attr iterate len
    get_index get_key get_members member_value key_in node_template physical_interface text_beq
    get_ntmpl_cnt get_ntmpl_phyintf_ipmi_pt_cnt get_ntmpl_phyintf_ipmi_cnt
hosts_valid = refl

create_nodes-Known_example :
    (names : List Value) × ((yield_ntmpl_ind cfg >>= inventory_hosts cfg) ≡ ok names)
    × (columns.hostname ≡ names)
    × All (Known hosts) names
create_nodes-Known_example =
    create_nodes-Known ipv4 ip_range ip_address cfg columns hosts returns hosts_valid
