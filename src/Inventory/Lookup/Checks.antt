-- ===== src/Inventory/Lookup/Checks.antt =====
-- The checks for missing MACs and addresses.
use cluster_genesis.Base.{
  ◌≡◌, refl, ◌≢◌, ◌↔◌, true, Option, none, some, List, [], ◌∷◌, arith, nat_eq, option_eq, All, Text,
  text_eq,
}
use cluster_genesis.Base.Value.{port_eq}
use cluster_genesis.Inventory.{Node}
use cluster_genesis.Inventory.Lookup.{
  all_present, all_nodes_present, check_all_nodes, check_data_interfaces_macs,
  check_all_nodes_ipmi_ipaddrs, check_all_nodes_ipmi_macs, check_all_nodes_pxe_ipaddrs,
  check_all_nodes_pxe_macs,
}

-- Every entry has a value.
abbrev pub IsFull : List (Option Text) → Type 0
IsFull xs = All (λ x. (t : Text) × (x ≡ some t)) xs

all_present_iff : (xs : List (Option Text)) → (all_present xs ≡ true) ↔ IsFull xs
unfolding all_present
all_present_iff [] = (λ h. tt, λ h. refl)
all_present_iff (none ∷ xs) = (λ h. cc, λ (m, h). absurd (none_ne (m.1)))
  where
    none_ne : {t : Text} → none ≡ some t → ⊥
    none_ne h = cc
all_present_iff (some t ∷ xs) =
    let (to, from) = all_present_iff xs in (λ h. ((t, refl), to h), λ (m, h). from h)

all_nodes_present_iff :
    (items : Node → List (Option Text)) (ns : List Node)
    → (all_nodes_present items ns ≡ true) ↔ All (λ n. IsFull (items n)) ns
unfolding all_nodes_present
all_nodes_present_iff items [] = (λ h. tt, λ h. refl)
all_nodes_present_iff items (n ∷ ns) =
    ground (arith, all_present_iff (items n), all_nodes_present_iff items ns)

check_all_nodes_iff :
    (items : Node → List (Option Text)) (ns : List Node)
    → (check_all_nodes items ns ≡ true) ↔ ((ns ≢ []) × All (λ n. IsFull (items n)) ns)
unfolding check_all_nodes
check_all_nodes_iff items [] = (λ h. cc, λ (h, _). absurd (h refl))
check_all_nodes_iff items (n ∷ ns) =
    let (to, from) = all_nodes_present_iff items (n ∷ ns) in
    (λ h. (λ e. cc, to h), λ (_, h). from h)

-- Each check of the IPMI and PXE interfaces holds exactly if there are nodes and every interface of
-- the type has the value in all of them; the check of the data interfaces holds exactly if all have
-- a MAC, so also if there are no nodes.
pub checks_correct :
    (nodes : List Node)
    → ((check_all_nodes_ipmi_ipaddrs nodes ≡ true)
        ↔ ((nodes ≢ []) × All (λ n. IsFull n.ipmi.ipaddrs) nodes))
      × ((check_all_nodes_ipmi_macs nodes ≡ true)
          ↔ ((nodes ≢ []) × All (λ n. IsFull n.ipmi.macs) nodes))
      × ((check_all_nodes_pxe_ipaddrs nodes ≡ true)
          ↔ ((nodes ≢ []) × All (λ n. IsFull n.pxe.ipaddrs) nodes))
      × ((check_all_nodes_pxe_macs nodes ≡ true)
          ↔ ((nodes ≢ []) × All (λ n. IsFull n.pxe.macs) nodes))
      × ((check_data_interfaces_macs nodes ≡ true) ↔ All (λ n. IsFull n.data'.macs) nodes)
unfolding check_all_nodes_ipmi_ipaddrs check_all_nodes_ipmi_macs check_all_nodes_pxe_ipaddrs
    check_all_nodes_pxe_macs check_data_interfaces_macs
checks_correct nodes = (
  check_all_nodes_iff (λ n. n.ipmi.ipaddrs) nodes,
  check_all_nodes_iff (λ n. n.ipmi.macs) nodes,
  check_all_nodes_iff (λ n. n.pxe.ipaddrs) nodes,
  check_all_nodes_iff (λ n. n.pxe.macs) nodes,
  all_nodes_present_iff (λ n. n.data'.macs) nodes,
)
