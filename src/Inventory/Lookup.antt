-- ===== src/Inventory/Lookup.antt =====
-- The queries of scripts/python/lib/inventory.py: `get_port_mac_ip`, the `check_all_nodes_*`
-- methods, `get_data_interfaces` and the address getters and setters.
pub mod Ports
pub mod Checks
use cluster_genesis.Base.{
  ℕ, ◌+◌, Bool, true, false, Option, none, some, List, [], ◌∷◌, if◌then◌else◌, ◌==◌, nat_eq,
  option_eq, get_elem?, index_of?, Text, text_eq, Dict, insert, Result, ◌>>=◌, item, ok,
}
use cluster_genesis.Base.Value.{Port, port_eq}
use cluster_genesis.Inventory.{Group, Node, Kind, ipmi, pxe, data', group, set_group}

-- `try: x = xs[idx]`, `except (AttributeError, IndexError): x = None`
abbrev pub get_or_none : List (Option Text) → ℕ → Option Text
get_or_none xs i = elim (get_elem? xs i) [ none ↦ none | some x ↦ x ]

abbrev pub MacIp : Type 0
MacIp = Option Text × Option Text

-- The entry at the index, if the switch there is the one asked for; `none` is no return.
unfoldable pub entry_at : Group → Text → ℕ → Result (Option MacIp)
entry_at g switch idx = do
  sw ← item g.switches idx
  if switch == sw then ok (some (get_or_none g.macs idx, get_or_none g.ipaddrs idx)) else ok none

-- One of the two blocks of `get_port_mac_ip`. Only the first index of the port is looked at.
unfoldable pub group_mac_ip : Group → Text → Port → Result (Option MacIp)
group_mac_ip g switch port = elim (index_of? g.ports port) [
  | none ↦ ok none
  | some idx ↦ entry_at g switch idx
]

unfoldable pub get_port_mac_ip : List Node → Text → Port → Result MacIp
unfolding group_mac_ip
get_port_mac_ip [] switch port = ok (none, none)
get_port_mac_ip (n ∷ ns) switch port =
    let rest = get_port_mac_ip ns switch port in
    do
      found ← group_mac_ip n.ipmi switch port
      elim found [
        | some r ↦ ok r
        | none ↦ do
          found' ← group_mac_ip n.pxe switch port
          elim found' [ some r ↦ ok r | none ↦ rest ]
      ]

abbrev pub is_none : Option Text → Bool
is_none none = true
is_none (some _) = false

-- No item is `None`.
unfoldable pub all_present : List (Option Text) → Bool
all_present [] = true
all_present (x ∷ xs) = if is_none x then false else all_present xs

-- The double loop of `_check_all_nodes_mac_ipaddr`.
unfoldable pub all_nodes_present : (Node → List (Option Text)) → List Node → Bool
unfolding all_present
all_nodes_present items [] = true
all_nodes_present items (n ∷ ns) =
    if all_present (items n) then all_nodes_present items ns else false

-- `_check_all_nodes_mac_ipaddr`: an inventory with no nodes fails.
unfoldable pub check_all_nodes : (Node → List (Option Text)) → List Node → Bool
unfolding all_nodes_present
check_all_nodes items [] = false
check_all_nodes items (n ∷ ns) = all_nodes_present items (n ∷ ns)

unfoldable pub check_all_nodes_ipmi_ipaddrs : List Node → Bool
unfolding check_all_nodes
check_all_nodes_ipmi_ipaddrs = check_all_nodes (λ n. n.ipmi.ipaddrs)

unfoldable pub check_all_nodes_ipmi_macs : List Node → Bool
unfolding check_all_nodes
check_all_nodes_ipmi_macs = check_all_nodes (λ n. n.ipmi.macs)

unfoldable pub check_all_nodes_pxe_ipaddrs : List Node → Bool
unfolding check_all_nodes
check_all_nodes_pxe_ipaddrs = check_all_nodes (λ n. n.pxe.ipaddrs)

unfoldable pub check_all_nodes_pxe_macs : List Node → Bool
unfolding check_all_nodes
check_all_nodes_pxe_macs = check_all_nodes (λ n. n.pxe.macs)

-- `check_data_interfaces_macs` has no test for an empty inventory.
unfoldable pub check_data_interfaces_macs : List Node → Bool
unfolding all_nodes_present
check_data_interfaces_macs = all_nodes_present (λ n. n.data'.macs)

-- A row of `get_data_interfaces`: switch, port, device and MAC.
abbrev pub DataRow : Type 0
DataRow = Text × Port × Text × Option Text

-- The rows of one node, for the devices from index `i` on.
unfoldable pub data_rows : Group → List Text → ℕ → Result (List DataRow)
data_rows g [] i = ok []
data_rows g (device ∷ ds) i =
    let rest = data_rows g ds (i + 1) in
    do
      switch ← item g.switches i
      port ← item g.ports i
      mac ← item g.macs i
      rows ← rest
      ok ((switch, port, device, mac) ∷ rows)

-- Keys are host names: a later node with the same name takes the place of an earlier one.
unfoldable pub data_interfaces_from :
    List Node → Dict Text (List DataRow) → Result (Dict Text (List DataRow))
unfolding data_rows
data_interfaces_from [] dct = ok dct
data_interfaces_from (n ∷ ns) dct = do
  rows ← data_rows n.data' n.data'.devices 0
  data_interfaces_from ns (insert n.hostname rows dct)

unfoldable pub get_data_interfaces : List Node → Result (Dict Text (List DataRow))
unfolding data_interfaces_from
get_data_interfaces nodes = data_interfaces_from nodes []
