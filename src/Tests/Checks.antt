-- ===== src/Tests/Checks.antt =====
-- The checks on a node whose only interface has a MAC and no address.
use cluster_genesis.Base.{
  ◌≡◌, refl, ◌≢◌, ◌↔◌, true, none, some, [], ◌∷◌, nat_eq, option_eq, All, codes, text_eq,
}
use cluster_genesis.Base.Value.{port_eq}
use cluster_genesis.Inventory.{Node, Group}
use cluster_genesis.Inventory.Lookup.{
  check_all_nodes_ipmi_macs, all_present, all_nodes_present, check_all_nodes,
  check_all_nodes_ipmi_ipaddrs, check_all_nodes_pxe_ipaddrs, check_all_nodes_pxe_macs,
  check_data_interfaces_macs,
}
use cluster_genesis.Inventory.Lookup.Checks.{IsFull, checks_correct}

abbrev empty : Group
empty = record { switches = []; ports = []; macs = []; ipaddrs = []; devices = []; rename = [] }

abbrev node : Node
node = record {
  hostname = codes "n";
  ipmi = record empty { macs = some (codes "aa") ∷ []; ipaddrs = none ∷ [] };
  pxe = empty;
  data' = empty;
  interfaces = [];
}

has_macs : check_all_nodes_ipmi_macs (node ∷ []) ≡ true
unfolding check_all_nodes_ipmi_macs check_all_nodes all_nodes_present all_present
has_macs = refl

checks_correct_example :
    ((check_all_nodes_ipmi_ipaddrs (node ∷ []) ≡ true)
      ↔ ((node ∷ [] ≢ []) × All (λ n. IsFull n.ipmi.ipaddrs) (node ∷ [])))
    × ((check_all_nodes_ipmi_macs (node ∷ []) ≡ true)
        ↔ ((node ∷ [] ≢ []) × All (λ n. IsFull n.ipmi.macs) (node ∷ [])))
    × ((check_all_nodes_pxe_ipaddrs (node ∷ []) ≡ true)
        ↔ ((node ∷ [] ≢ []) × All (λ n. IsFull n.pxe.ipaddrs) (node ∷ [])))
    × ((check_all_nodes_pxe_macs (node ∷ []) ≡ true)
        ↔ ((node ∷ [] ≢ []) × All (λ n. IsFull n.pxe.macs) (node ∷ [])))
    × ((check_data_interfaces_macs (node ∷ []) ≡ true) ↔ All (λ n. IsFull n.data'.macs) (node ∷ []))
checks_correct_example = checks_correct (node ∷ [])
