-- ===== src/DataSwitch/Mtus.antt =====
-- The list of the MTUs by switch of scripts/python/configure_data_switches.py, from the loaded
-- configuration. An MTU is a number, as the schema of the configuration has it.
use cluster_genesis.Base.{
  ℕ, true, false, Option, none, some, if◌then◌else◌, [], nat_eq, ◌==◌, option_eq, Text, codes,
  Result, ◌>>=◌, each, type_error, ok, err,
}
use cluster_genesis.Base.Value.{Value, int}
use cluster_genesis.Config.Access.{as_text, get_key, key_in, iterate}
use cluster_genesis.Config.Templates.Ifcs.{get_interface, yield_ntmpl_phyintf_data_ind}
use cluster_genesis.Config.Templates.Data.{
  get_ntmpl_phyintf_data_switch, get_ntmpl_phyintf_data_ifc, get_ntmpl_phyintf_data_ports,
}
use cluster_genesis.Config.Templates.Lists.{yield_ntmpl_ind}
use cluster_genesis.DataSwitch.{MtuTree}
use cluster_genesis.DataSwitch.Vlans.{as_port, add_vlan, loop}

-- The number under a key, of which 0 is none.
unfoldable pub mtu_at : Value → Text → Result (Option ℕ)
mtu_at ifc key = get_key ifc key >>= λ v. elim v [
  | int n ↦ ok (if n == 0 then none else some n)
  | _ ↦ err type_error
]

unfoldable pub ifc_mtu : Value → Result (Option ℕ)
unfolding mtu_at
ifc_mtu ifc = key_in (codes "mtu") ifc >>= λ lower. elim lower [
  | true ↦ mtu_at ifc (codes "mtu")
  | false ↦ key_in (codes "MTU") ifc >>= λ upper. elim upper [
    | true ↦ mtu_at ifc (codes "MTU")
    | false ↦ ok none
  ]
]

-- The ports of a physical interface, under its MTU where it has one. The tree takes them as the one
-- of the VLANs does.
unfoldable pub add_with_mtu : Value → ℕ → ℕ → MtuTree → Option ℕ → Result MtuTree
unfolding as_text as_port add_vlan get_ntmpl_phyintf_data_ports get_ntmpl_phyintf_data_switch
add_with_mtu cfg ntmpl_ind phyintf_idx mtu_list none = ok mtu_list
add_with_mtu cfg ntmpl_ind phyintf_idx mtu_list (some mtu) = do
  sw ← get_ntmpl_phyintf_data_switch cfg ntmpl_ind (some phyintf_idx)
  switch ← as_text sw
  members ← get_ntmpl_phyintf_data_ports cfg ntmpl_ind phyintf_idx none
  items ← iterate members
  ports ← each as_port items
  ok (add_vlan switch mtu ports mtu_list)

unfoldable pub add_phyintf_mtu : Value → ℕ → MtuTree → ℕ → Result MtuTree
unfolding as_text ifc_mtu get_interface get_ntmpl_phyintf_data_ifc add_with_mtu
add_phyintf_mtu cfg ntmpl_ind mtu_list phyintf_idx = do
  found ← get_ntmpl_phyintf_data_ifc cfg ntmpl_ind (some phyintf_idx)
  phy_ifc ← as_text found
  ifc ← get_interface cfg phy_ifc
  mtu ← ifc_mtu ifc
  add_with_mtu cfg ntmpl_ind phyintf_idx mtu_list mtu

unfoldable pub add_ntmpl_mtus : Value → MtuTree → ℕ → Result MtuTree
unfolding yield_ntmpl_phyintf_data_ind loop add_phyintf_mtu
add_ntmpl_mtus cfg mtu_list ntmpl_ind = do
  inds ← yield_ntmpl_phyintf_data_ind cfg ntmpl_ind
  loop (add_phyintf_mtu cfg ntmpl_ind) mtu_list inds

unfoldable pub get_mtu_list : Value → Result MtuTree
unfolding yield_ntmpl_ind loop add_ntmpl_mtus
get_mtu_list cfg = do inds ← yield_ntmpl_ind cfg; loop (add_ntmpl_mtus cfg) [] inds
