-- ===== src/DataSwitch/PortVlans.antt =====
-- The lookups of scripts/python/configure_data_switches.py.
use cluster_genesis.Base.{
  ℕ, min, Bool, false, ◌&&◌, ◌||◌, Option, none, some, List, [], ◌∷◌, ◌++◌, foldl, if◌then◌else◌,
  nat_eq, ◌==◌, option_eq, contains, Text, text_eq, Dict, lookup, insert, Result, ◌>>=◌, each,
  value_error, ok, err,
}
use cluster_genesis.Base.Value.{Port, port_str, port_eq}
use cluster_genesis.DataSwitch.{VlanTree, PortTree, MtuTree}
use cluster_genesis.Base.Strings.{split, int_of}
use cluster_genesis.Switch.Allowed.{last_of}

-- `tree[k]` of a `Tree`, which is an empty one for a missing key.
unfoldable pub subtree : {K V : Type 0} → Text → Dict Text (Dict K V) → Dict K V
subtree k tree = elim (lookup k tree) [ none ↦ [] | some t ↦ t ]

-- One step of the aggregation by switch and port.
unfoldable pub add_port : Text → ℕ → Port → PortTree → PortTree
unfolding subtree port_str
add_port switch vlan port port_vlans = elim (lookup (port_str port) (subtree switch port_vlans)) [
  | some vlans ↦
      insert switch (insert (port_str port) (vlans ++ vlan ∷ []) (subtree switch port_vlans))
        port_vlans
  | none ↦ insert switch (insert (port_str port) (vlan ∷ []) (subtree switch port_vlans)) port_vlans
]

unfoldable pub add_ports : Text → ℕ → List Port → PortTree → PortTree
unfolding add_port
add_ports switch vlan [] port_vlans = port_vlans
add_ports switch vlan (port ∷ ports) port_vlans =
    add_ports switch vlan ports (add_port switch vlan port port_vlans)

unfoldable pub add_vlans : Text → Dict ℕ (List Port) → PortTree → PortTree
unfolding add_ports
add_vlans switch [] port_vlans = port_vlans
add_vlans switch ((vlan, ports) ∷ rest) port_vlans =
    add_vlans switch rest (add_ports switch vlan ports port_vlans)

unfoldable pub add_switches : VlanTree → PortTree → PortTree
unfolding add_vlans
add_switches [] port_vlans = port_vlans
add_switches ((switch, vlans) ∷ rest) port_vlans =
    add_switches rest (add_vlans switch vlans port_vlans)

-- `Aggregate by switch and port number`
unfoldable pub by_port : VlanTree → PortTree
unfolding add_switches
by_port vlan_list = add_switches vlan_list []

unfoldable pub get_port_vlans : Text → Text → PortTree → Option (List ℕ)
unfolding subtree
get_port_vlans switch port port_vlans = lookup port (subtree switch port_vlans)

unfoldable pub mtu_of : Port → Dict ℕ (List Port) → Option ℕ
mtu_of port [] = none
mtu_of port ((mtu, ports) ∷ rest) =
    let later = mtu_of port rest in if contains ports port then some mtu else later

unfoldable pub get_port_mtu : Text → Port → MtuTree → Option ℕ
unfolding subtree mtu_of
get_port_mtu switch port mtu_list = mtu_of port (subtree switch mtu_list)

unfoldable pub any_has : Text → List (List Text) → Bool
any_has port [] = false
any_has port (group ∷ groups) = contains group port || any_has port groups

unfoldable pub in_groups : Text → Text → Dict Text (List (List Text)) → Bool
unfolding any_has
in_groups switch port [] = false
in_groups switch port ((sw, groups) ∷ rest) =
    (switch == sw && any_has port groups) || in_groups switch port rest

unfoldable pub is_port_in_a_port_channel :
    Text → Text → Dict Text (Dict Text (List (List Text))) → Bool
unfolding in_groups
is_port_in_a_port_channel switch port [] = false
is_port_in_a_port_channel switch port ((sw, peers) ∷ rest) =
    in_groups switch port peers || is_port_in_a_port_channel switch port rest

-- `port.rpartition('/')[-1]`
unfoldable pub last_segment : Text → Text
unfolding split last_of
last_segment port = last_of (split 47 port)

unfoldable pub port_numbers : List Text → Result (List ℕ)
unfolding int_of last_segment
port_numbers ports = each (λ port. int_of (last_segment port)) ports

-- `min(ns)`, which is a ValueError for an empty list.
unfoldable pub least : List ℕ → Result ℕ
least [] = err value_error
least (n ∷ ns) = ok (foldl min n ns)

unfoldable pub get_channel_num : List Text → Result ℕ
unfolding port_numbers least
get_channel_num port_grp = port_numbers port_grp >>= λ ns. least ns
