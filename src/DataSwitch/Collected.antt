-- ===== src/DataSwitch/Collected.antt =====
-- The list of the MTUs of scripts/python/configure_data_switches.py against a description of it.
use cluster_genesis.Base.{
  ℕ, ◌&&◌, none, some, List, [], ◌∷◌, ◌++◌, if◌then◌else◌, nat_eq, ◌==◌, option_eq, Text, text_eq,
  Dict, lookup,
}
use cluster_genesis.Base.Value.{Value, Port, port_eq}
use cluster_genesis.DataSwitch.{MtuTree}
use cluster_genesis.DataSwitch.PortVlans.{subtree}
use cluster_genesis.DataSwitch.Rows.{Row}

-- The ports of the rows of a switch with an MTU, in their order.
unfoldable pub ports_of : Text → ℕ → List Row → List Port
ports_of sw mtu [] = []
ports_of sw mtu ((sw', mtu', ports) ∷ rows) =
    (if sw' == sw && mtu' == mtu then ports else []) ++ ports_of sw mtu rows

unfoldable pub ports_with : ℕ → Dict ℕ (List Port) → List Port
ports_with mtu d = elim (lookup mtu d) [ none ↦ [] | some ports ↦ ports ]

-- The ports that a tree has for a switch and an MTU.
unfoldable pub ports_under : Text → ℕ → MtuTree → List Port
unfolding subtree ports_with
ports_under sw mtu tree = ports_with mtu (subtree sw tree)
