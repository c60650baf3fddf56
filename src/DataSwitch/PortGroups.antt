-- ===== src/DataSwitch/PortGroups.antt =====
-- `_get_port_chan_list` of scripts/python/configure_data_switches.py: the port channels of the bonds,
-- from the loaded configuration. A label, a device and a switch is a text, as the schema of the
-- configuration has it, and the switches of bonds are data switches.
use cluster_genesis.Base.{
  ℕ, ◌+◌, Bool, true, false, Option, none, some, List, [], ◌∷◌, ◌++◌, foldl, nat_eq, option_eq,
  contains, Text, codes, text_eq, Dict, lookup, insert, Result, ◌>>=◌, each, ok,
}
use cluster_genesis.Base.Value.{Value, port_eq, str}
use cluster_genesis.Config.Access.{as_text, get_key, iterate, key_in}
use cluster_genesis.Config.Templates.Ifcs.{
  get_interfaces, get_ntmpl_ifcs_all, yield_ntmpl_phyintf_data_ind,
}
use cluster_genesis.Config.Templates.Data.{
  get_ntmpl_phyintf_data_switch, get_ntmpl_phyintf_data_ifc, get_ntmpl_phyintf_data_ports,
}
use cluster_genesis.Config.Templates.Lists.{yield_ntmpl_label}
use cluster_genesis.Config.Templates.Settings.{same_scalar}
use cluster_genesis.Config.Switches.Mlag.{in_values, get_sw_data_mlag_peer, get_sw_data_mstr_switch}
use cluster_genesis.Config.Globals.{value_str}
use cluster_genesis.DataSwitch.{ChannelTree, Groups, zipped}
use cluster_genesis.DataSwitch.Vlans.{text_at, loop}
use cluster_genesis.DataSwitch.PortVlans.{subtree}

-- Bonds and the labels of their interfaces.
abbrev pub BondTree : Type 0
BondTree = Dict Text (List Text)

-- By bond, node template, interface and switch: the ports as texts.
abbrev pub MemberTree : Type 0
MemberTree = Dict Text (Dict Text (Dict Text (Dict Text (List Text))))

-- By bond, node template and switch: the groups of ports.
abbrev pub GroupTree : Type 0
GroupTree = Dict Text (Dict Text (Dict Text Groups))

-- `key in _ifc and _ifc[key] == ifc[device]`
unfoldable pub is_member : Text → Text → Value → Value → Result Bool
unfolding same_scalar
is_member key device ifc other = key_in key other >>= λ found. elim found [
  | false ↦ ok false
  | true ↦ do v ← get_key other key; w ← get_key ifc device; ok (same_scalar v w)
]

-- `d[k].append(v)`, or `d[k] = [v]` the first time.
unfoldable pub append_at : {A : Type 0} → Text → A → Dict Text (List A) → Dict Text (List A)
append_at k v d = elim (lookup k d) [
  | some vs ↦ insert k (vs ++ v ∷ []) d
  | none ↦ insert k (v ∷ []) d
]

unfoldable pub add_member : Text → Text → Value → BondTree → Value → Result BondTree
unfolding is_member append_at text_at
add_member key device ifc bond_ifcs other = is_member key device ifc other >>= λ b. elim b [
  | false ↦ ok bond_ifcs
  | true ↦ do
    label ← text_at ifc (codes "label")
    member ← text_at other (codes "label")
    ok (append_at label member bond_ifcs)
]

-- An interface that is a bond, in one or the other format.
unfoldable pub add_bond : List Value → BondTree → Value → Result BondTree
unfolding loop add_member
add_bond ifcs bond_ifcs ifc = key_in (codes "bond_mode") ifc >>= λ b. elim b [
  | true ↦ loop (add_member (codes "bond_master") (codes "iface") ifc) bond_ifcs ifcs
  | false ↦ key_in (codes "BONDING_MASTER") ifc >>= λ c. elim c [
    | true ↦ loop (add_member (codes "MASTER") (codes "DEVICE") ifc) bond_ifcs ifcs
    | false ↦ ok bond_ifcs
  ]
]

unfoldable pub get_bond_ifcs : Value → Result BondTree
unfolding get_interfaces loop add_bond
get_bond_ifcs cfg = do
  found ← get_interfaces cfg
  ifcs ← iterate found
  loop (add_bond ifcs) [] ifcs

-- `bonds[bond][ntmpl_label][phyintf][switch] = ports`
unfoldable pub set_ports : Text → Text → Text → Text → List Text → MemberTree → MemberTree
unfolding subtree
set_ports bond ntmpl_label phyintf switch ports bonds =
    let ntmpls = subtree bond bonds in
    let ifcs = subtree ntmpl_label ntmpls in
    insert bond
      (insert ntmpl_label (insert phyintf (insert switch ports (subtree phyintf ifcs)) ifcs) ntmpls)
      bonds

-- A physical interface of the bond.
unfoldable pub add_bond_ports :
    Value → Text → List Text → ℕ → Text → MemberTree → ℕ → Result MemberTree
unfolding as_text value_str set_ports get_ntmpl_phyintf_data_ifc get_ntmpl_phyintf_data_switch
    get_ntmpl_phyintf_data_ports
add_bond_ports cfg bond members ntmpl_ind ntmpl_label bonds phyintf_idx = do
  found ← get_ntmpl_phyintf_data_ifc cfg ntmpl_ind (some phyintf_idx)
  phyintf ← as_text found
  elim (contains members phyintf) [
    | false ↦ ok bonds
    | true ↦ do
      sw ← get_ntmpl_phyintf_data_switch cfg ntmpl_ind (some phyintf_idx)
      switch ← as_text sw
      listed ← get_ntmpl_phyintf_data_ports cfg ntmpl_ind phyintf_idx none
      items ← iterate listed
      ports ← each value_str items
      ok (set_ports bond ntmpl_label phyintf switch ports bonds)
  ]

-- A node template, if it has the bond.
unfoldable pub add_bond_ntmpl :
    Value → Text → List Text → MemberTree → ℕ × Value → Result MemberTree
unfolding as_text in_values loop add_bond_ports get_ntmpl_ifcs_all yield_ntmpl_phyintf_data_ind
add_bond_ntmpl cfg bond members bonds (ntmpl_ind, label) = do
  ntmpl_ifcs ← get_ntmpl_ifcs_all cfg ntmpl_ind
  elim (in_values (str bond) ntmpl_ifcs) [
    | false ↦ ok bonds
    | true ↦ do
      ntmpl_label ← as_text label
      inds ← yield_ntmpl_phyintf_data_ind cfg ntmpl_ind
      loop (add_bond_ports cfg bond members ntmpl_ind ntmpl_label) bonds inds
  ]

unfoldable pub enumerate : {A : Type 0} → ℕ → List A → List (ℕ × A)
enumerate i [] = []
enumerate i (x ∷ xs) = (i, x) ∷ enumerate (i + 1) xs

unfoldable pub add_bond_members : Value → MemberTree → Text × List Text → Result MemberTree
unfolding enumerate loop add_bond_ntmpl yield_ntmpl_label
add_bond_members cfg bonds (bond, members) = do
  labels ← yield_ntmpl_label cfg
  loop (add_bond_ntmpl cfg bond members) bonds (enumerate 0 labels)

unfoldable pub get_bonds : Value → BondTree → Result MemberTree
unfolding loop add_bond_members
get_bonds cfg bond_ifcs = loop (add_bond_members cfg) [] bond_ifcs

-- The first ports of all lists and what is behind them, if each has one.
unfoldable pub heads : List (List Text) → Option (List Text × List (List Text))
heads [] = some ([], [])
heads ([] ∷ rows) = none
heads ((x ∷ xs) ∷ rows) = elim (heads rows) [ none ↦ none | some (hs, ts) ↦ some (x ∷ hs, xs ∷ ts) ]

unfoldable pub zip_with_rows : List Text → List (List Text) → List (List Text)
unfolding heads
zip_with_rows [] rows = []
zip_with_rows (x ∷ xs) rows = elim (heads rows) [
  | none ↦ []
  | some (hs, ts) ↦ (x ∷ hs) ∷ zip_with_rows xs ts
]

-- `zip(*rows)`
unfoldable pub zip_all : List (List Text) → Groups
unfolding zip_with_rows
zip_all [] = zipped []
zip_all (row ∷ rows) = zipped (zip_with_rows row rows)

-- The ports of the switches, a list for each interface of the bond.
unfoldable pub bond_ports :
    Dict Text (Dict Text (List Text)) → Dict Text (List (List Text)) → Dict Text (List (List Text))
unfolding append_at
bond_ports [] bond_ports_list = bond_ports_list
bond_ports ((ifc, switches) ∷ ifcs) bond_ports_list =
    bond_ports ifcs (foldl (λ d e. append_at e.0 e.1 d) bond_ports_list switches)

abbrev pub map_dict : {A B : Type 0} → (A → B) → Dict Text A → Dict Text B
map_dict f [] = []
map_dict f ((k, v) ∷ d) = (k, f v) ∷ map_dict f d

-- The groups of a bond and a template on each switch: the first ports of its interfaces, the second
-- ones, and so on.
unfoldable pub group_ports : Dict Text (Dict Text (List Text)) → Dict Text Groups
unfolding bond_ports zip_all
group_ports ifcs = map_dict zip_all (bond_ports ifcs [])

unfoldable pub get_ports_list : MemberTree → GroupTree
unfolding group_ports
get_ports_list bonds = map_dict (map_dict group_ports) bonds

-- `chan_ports[bond][ntmpl][mstr_switch][switch] = groups`
unfoldable pub set_groups : Text → Text → Text → Text → Groups → ChannelTree → ChannelTree
unfolding subtree
set_groups bond ntmpl mstr_switch switch groups chan_ports =
    let ntmpls = subtree bond chan_ports in
    let mstrs = subtree ntmpl ntmpls in
    insert bond
      (insert ntmpl (insert mstr_switch (insert switch groups (subtree mstr_switch mstrs)) mstrs)
        ntmpls)
      chan_ports

module _ (network_value : Value → Result ℕ) where
  unfoldable pub add_groups : Value → Text → Text → ChannelTree → Text × Groups → Result ChannelTree
  unfolding as_text set_groups get_sw_data_mlag_peer get_sw_data_mstr_switch
  add_groups cfg bond ntmpl chan_ports (switch, groups) = do
    peer_switch ← get_sw_data_mlag_peer cfg switch
    mstr ← get_sw_data_mstr_switch network_value cfg (str switch ∷ peer_switch ∷ [])
    mstr_switch ← as_text mstr
    ok (set_groups bond ntmpl mstr_switch switch groups chan_ports)

  unfoldable pub add_ntmpl_groups :
      Value → Text → ChannelTree → Text × Dict Text Groups → Result ChannelTree
  unfolding loop add_groups
  add_ntmpl_groups cfg bond chan_ports (ntmpl, switches) =
      loop (add_groups cfg bond ntmpl) chan_ports switches

  unfoldable pub add_bond_groups :
      Value → ChannelTree → Text × Dict Text (Dict Text Groups) → Result ChannelTree
  unfolding loop add_ntmpl_groups
  add_bond_groups cfg chan_ports (bond, ntmpls) = loop (add_ntmpl_groups cfg bond) chan_ports ntmpls

  unfoldable pub get_port_chan_list : Value → Result ChannelTree
  unfolding get_bond_ifcs get_bonds get_ports_list loop add_bond_groups
  get_port_chan_list cfg = do
    bond_ifcs ← get_bond_ifcs cfg
    bonds ← get_bonds cfg bond_ifcs
    loop (add_bond_groups cfg) [] (get_ports_list bonds)
