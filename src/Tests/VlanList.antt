-- ===== src/Tests/VlanList.antt =====
-- The lists of the VLANs and of the MTUs of small configurations.
use cluster_genesis.Base.{
  ℕ, ◌≡◌, refl, List, [], ◌∷◌, nat_eq, option_eq, Text, codes, text_beq, text_eq, value_error, ok,
  err,
}
use cluster_genesis.Base.Value.{Value, port_eq, int, str, num}
use cluster_genesis.DataSwitch.{zipped}
use cluster_genesis.Config.Switches.Data.{get_sw_data_label}
use cluster_genesis.Config.Switches.Labels.{index_by_label}
use cluster_genesis.Config.Templates.{node_template, physical_interface}
use cluster_genesis.Tests.Yaml.{obj, many}
use cluster_genesis.DataSwitch.Mtus.{
  get_mtu_list, add_ntmpl_mtus, add_with_mtu, add_phyintf_mtu, ifc_mtu, mtu_at,
}
use cluster_genesis.DataSwitch.Rows.{mtu_rows, collect, ntmpl_rows, phyintf_rows, rows_with_mtu}
use cluster_genesis.DataSwitch.Vlans.{
  get_vlan_info, get_vlan_slaves, add_phyintf, loop, add_ifc, add_ntmpl, get_vlan_list,
}
use cluster_genesis.Config.Access.{
  attr, get_key, iterate, get_index, len, key_in, path, member_value, get_members,
}
use cluster_genesis.Config.Templates.Lists.{get_ntmpl_cnt, yield_ntmpl_ind, get_ntmpl_label}
use cluster_genesis.Config.Templates.Ifcs.{get_interface, yield_ntmpl_phyintf_data_ind}
use cluster_genesis.Config.Templates.Data.{
  get_ntmpl_phyintf_data_ifc, get_ntmpl_phyintf_data_switch, get_ntmpl_phyintf_data_ports,
}
use cluster_genesis.DataSwitch.PortGroups.{get_port_chan_list}

ifc : Text → Text → Text → Value
ifc label key value =
    obj
      ((codes "label", str label) ∷ (codes "iface", str (codes "bond0.10")) ∷ (key, str value) ∷ [])

phyintf : Text → List Value → Value
phyintf label ports = obj (
    (codes "switch", str (codes "leaf"))
    ∷ (codes "interface", str label)
    ∷ (codes "ports", many ports)
    ∷ [])

template : Value
unfolding phyintf
template = obj (
    (codes "label", str (codes "node"))
    ∷ (codes "interfaces", many (str (codes "vlan") ∷ []))
    ∷ (
      codes "physical_interfaces",
      obj (
          (
            codes "data",
            many (
                phyintf (codes "if1") (int 1 ∷ int 2 ∷ [])
                ∷ phyintf (codes "if2") (int 3 ∷ int 4 ∷ [])
                ∷ []),
          )
          ∷ []),
    )
    ∷ [])

-- A bond of two interfaces with a VLAN on it, and a node template that has both.
cfg : Value
unfolding template ifc
cfg = obj (
    (
      codes "interfaces",
      many (
          ifc (codes "vlan") (codes "vlan_raw_device") (codes "bond0")
          ∷ ifc (codes "if1") (codes "bond_master") (codes "bond0")
          ∷ ifc (codes "if2") (codes "MASTER") (codes "bond0")
          ∷ []),
    )
    ∷ (codes "node_templates", many (template ∷ []))
    ∷ [])

cfg_vlans :
    get_vlan_list cfg
    ≡ ok (
        (
          codes "leaf",
          (codes "1", 10 ∷ [])
              ∷ (codes "2", 10 ∷ [])
              ∷ (codes "3", 10 ∷ [])
              ∷ (codes "4", 10 ∷ [])
              ∷ [],
        )
        ∷ [])
unfolding get_vlan_list loop add_ntmpl add_ifc add_phyintf get_vlan_info get_vlan_slaves
    get_ntmpl_cnt path attr cfg obj text_beq len iterate key_in node_template get_index get_key
    get_members member_value physical_interface
cfg_vlans = refl

mtu_ifc : Text → Text → ℕ → Value
mtu_ifc label key mtu = obj ((codes "label", str label) ∷ (key, int mtu) ∷ [])

-- The same node template, whose interfaces have the MTU of one or the other format.
mtu_cfg : Value
unfolding template mtu_ifc
mtu_cfg = obj (
    (
      codes "interfaces",
      many (
          mtu_ifc (codes "if1") (codes "mtu") 9000 ∷ mtu_ifc (codes "if2") (codes "MTU") 9000 ∷ []),
    )
    ∷ (codes "node_templates", many (template ∷ []))
    ∷ [])

cfg_mtus :
    get_mtu_list mtu_cfg ≡ ok ((codes "leaf", (9000, num 1 ∷ num 2 ∷ num 3 ∷ num 4 ∷ []) ∷ []) ∷ [])
unfolding get_mtu_list loop add_ntmpl_mtus add_with_mtu add_phyintf_mtu ifc_mtu mtu_at get_ntmpl_cnt
    path attr mtu_cfg obj text_beq len iterate key_in node_template get_index get_key get_members
    member_value physical_interface
cfg_mtus = refl

mtu_cfg_rows :
    mtu_rows mtu_cfg
    ≡ ok ((codes "leaf", 9000, num 1 ∷ num 2 ∷ []) ∷ (codes "leaf", 9000, num 3 ∷ num 4 ∷ []) ∷ [])
unfolding yield_ntmpl_ind yield_ntmpl_phyintf_data_ind get_interface get_ntmpl_phyintf_data_ifc
    get_ntmpl_phyintf_data_switch get_ntmpl_phyintf_data_ports mtu_rows collect ntmpl_rows
    phyintf_rows rows_with_mtu ifc_mtu mtu_at get_ntmpl_cnt path attr mtu_cfg obj text_beq len
    iterate key_in node_template get_index get_key get_members member_value physical_interface
mtu_cfg_rows = refl

bond : Text → Text → Text → Text → Value
bond label device key value =
    obj ((codes "label", str label) ∷ (device, str (codes "bond0")) ∷ (key, str value) ∷ [])

-- A bond of the two interfaces, on one switch without a peer.
bond_cfg : Value
unfolding template bond
bond_cfg = obj (
    (
      codes "interfaces",
      many (
          bond (codes "vlan") (codes "iface") (codes "bond_mode") (codes "802.3ad")
          ∷ bond (codes "if1") (codes "name") (codes "bond_master") (codes "bond0")
          ∷ bond (codes "if2") (codes "name") (codes "bond_master") (codes "bond0")
          ∷ []),
    )
    ∷ (
      codes "switches",
      obj (
          (
            codes "data",
            many (
                obj (
                  (codes "label", str (codes "leaf"))
                  ∷ (codes "links", many (obj ((codes "target", str (codes "deployer")) ∷ []) ∷ []))
                  ∷ [])
                ∷ []),
          )
          ∷ []),
    )
    ∷ (codes "node_templates", many (template ∷ []))
    ∷ [])

cfg_groups :
    get_port_chan_list (λ v. err value_error) bond_cfg
    ≡ ok (
        (
          codes "vlan",
          (
            codes "node",
            (
              codes "leaf",
              (
                codes "leaf",
                zipped ((codes "1" ∷ codes "3" ∷ []) ∷ (codes "2" ∷ codes "4" ∷ []) ∷ []),
              )
                  ∷ [],
            )
                ∷ [],
          )
              ∷ [],
        )
        ∷ [])
unfolding get_port_chan_list bond_cfg path attr obj text_beq len iterate key_in node_template
    get_index get_key get_members member_value physical_interface get_ntmpl_label index_by_label
    get_sw_data_label
cfg_groups = refl
