-- ===== src/DataSwitch/Vlans.antt =====
-- The list of the VLANs by switch of scripts/python/configure_data_switches.py, from the loaded
-- configuration. A label is a text and a port a number or a text, as the schema of the
-- configuration has it.
use cluster_genesis.Base.{
  ℕ, Bool, true, false, Option, none, some, List, [], ◌∷◌, ◌++◌, nat_eq, ◌==◌, option_eq, contains,
  Text, codes, text_eq, lookup, insert, Result, ◌>>=◌, each, type_error, ok, err,
}
use cluster_genesis.Base.Value.{Value, Port, port_eq, int, str, num, name}
use cluster_genesis.Base.Strings.{split, int_of, join}
use cluster_genesis.Config.Access.{as_text, get_key, key_in, iterate, is_str}
use cluster_genesis.Config.Templates.Ifcs.{
  get_interfaces, get_ntmpl_ifcs_all, yield_ntmpl_phyintf_data_ind,
}
use cluster_genesis.DataSwitch.{VlanTree, PortTree}
use cluster_genesis.DataSwitch.PortVlans.{subtree, by_port}
use cluster_genesis.Switch.Allowed.{last_of}
use cluster_genesis.Config.Templates.Data.{
  get_ntmpl_phyintf_data_switch, get_ntmpl_phyintf_data_ifc, get_ntmpl_phyintf_data_ports,
}
use cluster_genesis.Config.Templates.Lists.{yield_ntmpl_ind}

unfoldable pub as_port : Value → Result Port
as_port (int n) = ok (num n)
as_port (str t) = ok (name t)
as_port v = err type_error

unfoldable pub all_but_last : List Text → List Text
all_but_last [] = []
all_but_last (t ∷ []) = []
all_but_last (t ∷ u ∷ us) = t ∷ all_but_last (u ∷ us)

-- `t.rpartition('.')[2]` and `t.rpartition('.')[0]`
unfoldable pub behind_dot : Text → Text
unfolding split last_of
behind_dot t = last_of (split 46 t)

unfoldable pub before_dot : Text → Text
unfolding split all_but_last
before_dot t = join (codes ".") (all_but_last (split 46 t))

-- The text of an interface's key.
unfoldable pub text_at : Value → Text → Result Text
unfolding as_text
text_at ifc key = get_key ifc key >>= λ v. as_text v

-- The VLAN's number, or `None`, and the interface that carries it.
unfoldable pub vlan_of : Value → Result (Option (ℕ × Text))
unfolding text_at behind_dot before_dot int_of
vlan_of ifc = key_in (codes "vlan_raw_device") ifc >>= λ raw. elim raw [
  | true ↦ do
    iface ← text_at ifc (codes "iface")
    n ← int_of (behind_dot iface)
    device ← text_at ifc (codes "vlan_raw_device")
    ok (some (n, device))
  | false ↦ key_in (codes "VLAN") ifc >>= λ vlan. elim vlan [
    | true ↦ do
      device ← text_at ifc (codes "DEVICE")
      n ← int_of (behind_dot device)
      ok (some (n, before_dot device))
    | false ↦ ok none
  ]
]

-- The loop of `_get_vlan_info`, up to the first interface of the label that is a VLAN.
unfoldable pub find_vlan : Text → List Value → Result (Option (ℕ × Text))
unfolding text_at vlan_of
find_vlan ifc [] = ok none
find_vlan ifc (i ∷ ifcs) = text_at i (codes "label") >>= λ label. elim (label == ifc) [
  | false ↦ find_vlan ifc ifcs
  | true ↦ vlan_of i >>= λ found. elim found [ none ↦ find_vlan ifc ifcs | some v ↦ ok (some v) ]
]

unfoldable pub get_vlan_info : Value → Text → Result (Option (ℕ × Text))
unfolding get_interfaces find_vlan
get_vlan_info cfg ifc = do ifcs ← get_interfaces cfg; items ← iterate ifcs; find_vlan ifc items

-- `key in ifc and ifc[key] == name`
unfoldable pub has_text : Value → Text → Text → Result Bool
has_text ifc key wanted' = key_in key ifc >>= λ found. elim found [
  | false ↦ ok false
  | true ↦ get_key ifc key >>= λ v. ok (is_str wanted' v)
]

unfoldable pub is_slave : Text → Value → Result Bool
unfolding has_text
is_slave vlan_ifc_name ifc = has_text ifc (codes "bond_master") vlan_ifc_name >>= λ b. elim b [
  | true ↦ ok true
  | false ↦ has_text ifc (codes "MASTER") vlan_ifc_name
]

unfoldable pub slaves_of : Text → List Value → Result (List Text)
unfolding is_slave text_at
slaves_of vlan_ifc_name [] = ok []
slaves_of vlan_ifc_name (ifc ∷ ifcs) = is_slave vlan_ifc_name ifc >>= λ b. elim b [
  | false ↦ slaves_of vlan_ifc_name ifcs
  | true ↦ do
    label ← text_at ifc (codes "label")
    rest ← slaves_of vlan_ifc_name ifcs
    ok (label ∷ rest)
]

unfoldable pub get_vlan_slaves : Value → Text → Result (List Text)
unfolding get_interfaces slaves_of
get_vlan_slaves cfg vlan_ifc_name = do
  ifcs ← get_interfaces cfg
  items ← iterate ifcs
  slaves_of vlan_ifc_name items

-- `vlan_list[switch][vlan_num] += vlan_ports`, or `= vlan_ports` the first time.
unfoldable pub add_vlan : Text → ℕ → List Port → VlanTree → VlanTree
unfolding subtree
add_vlan switch vlan_num vlan_ports vlan_list = elim (lookup vlan_num (subtree switch vlan_list)) [
  | some ports ↦
      insert switch (insert vlan_num (ports ++ vlan_ports) (subtree switch vlan_list)) vlan_list
  | none ↦ insert switch (insert vlan_num vlan_ports (subtree switch vlan_list)) vlan_list
]

-- The ports of a physical interface that is one of the slaves.
unfoldable pub add_phyintf : Value → ℕ → ℕ → List Text → VlanTree → ℕ → Result VlanTree
unfolding as_text as_port add_vlan get_ntmpl_phyintf_data_ifc get_ntmpl_phyintf_data_ports
    get_ntmpl_phyintf_data_switch
add_phyintf cfg ntmpl_ind vlan_num slaves vlan_list phyintf_idx = do
  ifc ← get_ntmpl_phyintf_data_ifc cfg ntmpl_ind (some phyintf_idx)
  phy_ifc_lbl ← as_text ifc
  elim (contains slaves phy_ifc_lbl) [
    | false ↦ ok vlan_list
    | true ↦ do
      found ← get_ntmpl_phyintf_data_ports cfg ntmpl_ind phyintf_idx none
      items ← iterate found
      vlan_ports ← each as_port items
      sw ← get_ntmpl_phyintf_data_switch cfg ntmpl_ind (some phyintf_idx)
      switch ← as_text sw
      ok (add_vlan switch vlan_num vlan_ports vlan_list)
  ]

-- `for x in xs`, with what the loop changes handed on.
unfoldable pub loop : {A B : Type 0} → (B → A → Result B) → B → List A → Result B
loop f b [] = ok b
loop f b (x ∷ xs) = f b x >>= λ c. loop f c xs

-- An interface of a node template; a VLAN number 0 is none.
unfoldable pub add_ifc : Value → ℕ → VlanTree → Value → Result VlanTree
unfolding as_text get_vlan_info get_vlan_slaves yield_ntmpl_phyintf_data_ind loop add_phyintf
add_ifc cfg ntmpl_ind vlan_list ifc = do
  label ← as_text ifc
  info ← get_vlan_info cfg label
  elim info [
    | none ↦ ok vlan_list
    | some v ↦ elim (v.0 == 0) [
      | true ↦ ok vlan_list
      | false ↦ do
        slaves ← get_vlan_slaves cfg v.1
        inds ← yield_ntmpl_phyintf_data_ind cfg ntmpl_ind
        loop (add_phyintf cfg ntmpl_ind v.0 slaves) vlan_list inds
    ]
  ]

unfoldable pub add_ntmpl : Value → VlanTree → ℕ → Result VlanTree
unfolding get_ntmpl_ifcs_all loop add_ifc
add_ntmpl cfg vlan_list ntmpl_ind = do
  ntmpl_ifcs ← get_ntmpl_ifcs_all cfg ntmpl_ind
  loop (add_ifc cfg ntmpl_ind) vlan_list ntmpl_ifcs

unfoldable pub get_vlan_list : Value → Result PortTree
unfolding yield_ntmpl_ind loop add_ntmpl by_port
get_vlan_list cfg = do
  inds ← yield_ntmpl_ind cfg
  vlan_list ← loop (add_ntmpl cfg) [] inds
  ok (by_port vlan_list)
