-- ===== src/Inventory/Macs.antt =====
-- `_add_macs`, `_add_ipaddrs` and the methods that write the inventory file after them.
pub mod Learned
pub mod Stored
pub mod FirstRun
pub mod File
pub mod Nodes
use cluster_genesis.Base.{
  ℕ, ◌+◌, Option, none, some, List, [], ◌∷◌, nat_eq, option_eq, Text, text_eq, Dict, lookup, Result,
  ◌>>=◌, item, ok, err,
}
use cluster_genesis.Base.Value.{Port, port_str, port_eq}
use cluster_genesis.Inventory.{
  Group, Node, Kind, ipmi, pxe, data', group, set_group, Macs, port_mac, record_item,
}

-- The end of a round: `none` is a `continue`.
unfoldable pub write_mac : Option Text → ℕ → Group → Result Group
write_mac none i g = ok g
write_mac (some mac) i g = do ms ← record_item mac i g.macs; ok (record g { macs = ms })

-- The guards and the write for the interface at one index.
unfoldable pub learn_port : Macs → Port → ℕ → Group → Result Group
learn_port macs port i g = do
  switch ← item g.switches i
  found ← port_mac macs switch (port_str port)
  write_mac found i g

-- The inner loop, over the ports from index `i` on. What was written before a raise stays.
unfoldable pub learn_ports : Macs → List Port → ℕ → Group → Result (Unit {0}) × Group
learn_ports macs [] i g = (ok tt, g)
learn_ports macs (p ∷ ps) i g = elim (learn_port macs p i g) [
  | err e ↦ (err e, g)
  | ok g' ↦ learn_ports macs ps (i + 1) g'
]

-- A loop over the nodes that stops at the first raise.
abbrev pub each_node : (Node → Result (Unit {0}) × Node) → List Node → Result (Unit {0}) × List Node
each_node f [] = (ok tt, [])
each_node f (n ∷ ns) =
    let (r, n') = f n in
    elim r [ err e ↦ (err e, n' ∷ ns) | ok _ ↦ let (r', ns') = each_node f ns in (r', n' ∷ ns') ]

unfoldable pub add_macs_node : Macs → Kind → Node → Result (Unit {0}) × Node
add_macs_node macs k n =
    let (r, g) = learn_ports macs (group k n).ports 0 (group k n) in (r, set_group k g n)

unfoldable pub add_macs : Macs → Kind → List Node → Result (Unit {0}) × List Node
unfolding add_macs_node
add_macs macs k = each_node (add_macs_node macs k)

-- One round of the inner loop of `_add_ipaddrs`; `None` is no key of the table.
unfoldable pub learn_ipaddr : Dict Text Text → Option Text → ℕ → Group → Result Group
unfolding record_item
learn_ipaddr ipaddrs none i g = ok g
learn_ipaddr ipaddrs (some mac) i g = elim (lookup mac ipaddrs) [
  | none ↦ ok g
  | some ip ↦ do ips ← record_item ip i g.ipaddrs; ok (record g { ipaddrs = ips })
]

unfoldable pub learn_ipaddrs :
    Dict Text Text → List (Option Text) → ℕ → Group → Result (Unit {0}) × Group
learn_ipaddrs ipaddrs [] i g = (ok tt, g)
learn_ipaddrs ipaddrs (m ∷ ms) i g = elim (learn_ipaddr ipaddrs m i g) [
  | err e ↦ (err e, g)
  | ok g' ↦ learn_ipaddrs ipaddrs ms (i + 1) g'
]

unfoldable pub add_ipaddrs_node : Dict Text Text → Kind → Node → Result (Unit {0}) × Node
add_ipaddrs_node ipaddrs k n =
    let (r, g) = learn_ipaddrs ipaddrs (group k n).macs 0 (group k n) in (r, set_group k g n)

unfoldable pub add_ipaddrs : Dict Text Text → Kind → List Node → Result (Unit {0}) × List Node
unfolding add_ipaddrs_node
add_ipaddrs ipaddrs k = each_node (add_ipaddrs_node ipaddrs k)

-- The object: the nodes in memory and those in the inventory file.
pub record Inventory : Type 0 where
  pub nodes : List Node
  pub file : List Node

-- `self.dbase.dump_inventory(self.inv)`, reached only if nothing was raised before it.
abbrev pub dump_after : Result (Unit {0}) × List Node → List Node → Result (Unit {0}) × Inventory
dump_after (err e, ns) old = (err e, record { nodes = ns; file = old })
dump_after (ok u, ns) old = (ok tt, record { nodes = ns; file = ns })

unfoldable pub add_macs_ipmi : Macs → Inventory → Result (Unit {0}) × Inventory
add_macs_ipmi macs inv = dump_after (add_macs macs Kind.ipmi inv.nodes) inv.file

unfoldable pub add_macs_pxe : Macs → Inventory → Result (Unit {0}) × Inventory
add_macs_pxe macs inv = dump_after (add_macs macs Kind.pxe inv.nodes) inv.file

unfoldable pub add_macs_data : Macs → Inventory → Result (Unit {0}) × Inventory
add_macs_data macs inv = dump_after (add_macs macs Kind.data' inv.nodes) inv.file

unfoldable pub add_ipaddrs_ipmi : Dict Text Text → Inventory → Result (Unit {0}) × Inventory
add_ipaddrs_ipmi ips inv = dump_after (add_ipaddrs ips Kind.ipmi inv.nodes) inv.file

unfoldable pub add_ipaddrs_pxe : Dict Text Text → Inventory → Result (Unit {0}) × Inventory
add_ipaddrs_pxe ips inv = dump_after (add_ipaddrs ips Kind.pxe inv.nodes) inv.file
