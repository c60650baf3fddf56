-- ===== src/Inventory/Macs/Nodes.antt =====
-- The loop over the nodes: what `_add_macs` does to the whole inventory.
use cluster_genesis.Base.{
  ℕ, zero, suc, ◌+◌, ◌≡◌, refl, sym, ap, ◌∙◌, ◌⊎◌, inl, inr, true, Option, some, some-injective,
  List, [], ◌∷◌, arith, nat_eq, option_eq, get_elem?, contains, Text, text_eq, Result, Result-cases,
  err-ne-ok, ok,
}
use cluster_genesis.Base.Value.{port_eq}
use cluster_genesis.Inventory.{Group, Node, Kind, group, set_group, Macs}
use cluster_genesis.Inventory.Macs.{learn_ports, each_node, add_macs_node, add_macs}
use cluster_genesis.Inventory.Macs.Learned.{SeenAt, KeptOrSeen, learn_ports_correct}
use cluster_genesis.Inventory.Macs.Stored.{Distinct, learn_ports-Distinct}
use cluster_genesis.Inventory.Macs.FirstRun.{FreshFrom, learn_ports_complete}

module _ (f : Node → Result (Unit {0}) × Node) where
  -- Each node was visited, or it stands behind a raise and is as before.
  pub each_node_cases :
      (ns : List Node) (a : ℕ) (n : Node)
      → get_elem? ns a ≡ some n
      → (get_elem? (each_node f ns).1 a ≡ some n) ⊎ (get_elem? (each_node f ns).1 a ≡ some (f n).1)
  each_node_cases [] a n h = cc
  each_node_cases (m ∷ ns) zero n h = elim (Result-cases (f m).0) [
    | inl (u, e) ↦ inr (rw (e, each_node) (ap (λ (x : Node). some (f x).1) (some-injective m n h)))
    | inr (x, e) ↦ inr (rw (e, each_node) (ap (λ (x : Node). some (f x).1) (some-injective m n h)))
  ]
  each_node_cases (m ∷ ns) (suc a) n h = elim (Result-cases (f m).0) [
    | inl (u, e) ↦ rw (e, each_node) (each_node_cases ns a n h)
    | inr (x, e) ↦ inl (rw (e, each_node) h)
  ]

  pub each_node_ok :
      (ns : List Node) (a : ℕ) (n : Node)
      → (each_node f ns).0 ≡ ok tt
      → get_elem? ns a ≡ some n
      → ((f n).0 ≡ ok tt) × (get_elem? (each_node f ns).1 a ≡ some (f n).1)
  each_node_ok [] a n h p = cc
  each_node_ok (m ∷ ns) zero n h p = elim (Result-cases (f m).0) [
    | inl (tt, e) ↦
        let same : m ≡ n = some-injective m n p in
        (rw (← same) e, rw (e, each_node) (ap (λ (x : Node). some (f x).1) same))
    | inr (x, e) ↦ err-ne-ok (rw (e, each_node) at h)
  ]
  each_node_ok (m ∷ ns) (suc a) n h p = elim (Result-cases (f m).0) [
    | inl (u, e) ↦
        let (r, q) = each_node_ok ns a n (rw (e, each_node) at h) p in (r, rw (e, each_node) q)
    | inr (x, e) ↦ err-ne-ok (rw (e, each_node) at h)
  ]

group-set_group : (k : Kind) (g : Group) (n : Node) → group k (set_group k g n) ≡ g
group-set_group Kind.ipmi g n = refl
group-set_group Kind.pxe g n = refl
group-set_group Kind.data' g n = refl

set_group-group : (k : Kind) (n : Node) → set_group k (group k n) n ≡ n
set_group-group Kind.ipmi n = refl
set_group-group Kind.pxe n = refl
set_group-group Kind.data' n = refl

module _ (macs : Macs) (k : Kind) (nodes : List Node) (a : ℕ) (n : Node)
    (h : get_elem? nodes a ≡ some n) where
  -- Whether `_add_macs` raises or not, the node at any index is afterwards the old one with new MACs
  -- in the group of the type, and each of these is the one before, or the only MAC that the table
  -- of the interface's own switch has at the interface's own port.
  pub add_macs_sound :
      (ms : List (Option Text)) × (get_elem? (add_macs macs k nodes).1 a
        ≡ some (set_group k (record (group k n) { macs = ms }) n))
      × ((j : ℕ) → KeptOrSeen macs (group k n) (group k n).macs ms j)
  unfolding add_macs
  add_macs_sound =
      let (seen, frame) = learn_ports_correct macs (group k n) in
      elim (each_node_cases (add_macs_node macs k) nodes a n h) [
        | inl same ↦ ((group k n).macs, same ∙ ap some (sym (set_group-group k n)), λ j. inl refl)
        | inr new ↦ (
          (learn_ports macs (group k n).ports 0 (group k n)).1.macs,
          new ∙ ap (λ (u : Group). some (set_group k u n)) frame,
          seen,
        )
      ]

  -- If no MAC stands twice in the group of a node, none does after `_add_macs`, which may raise.
  pub add_macs-Distinct :
      Distinct (group k n).macs
      → (n' : Node) × (get_elem? (add_macs macs k nodes).1 a ≡ some n') × Distinct (group k n').macs
  unfolding add_macs
  add_macs-Distinct d = elim (each_node_cases (add_macs_node macs k) nodes a n h) [
    | inl same ↦ (n, same, d)
    | inr new ↦ (
      (add_macs_node macs k n).1,
      new,
      rw group-set_group (learn_ports-Distinct macs (group k n).ports 0 (group k n) d),
    )
  ]

  -- If `_add_macs` returns, and a node's group held no MAC before, then every MAC that is the only
  -- one in a switch's table at a port of the group is recorded in the node.
  pub add_macs_complete :
      (j : ℕ) (mac : Text)
      → (add_macs macs k nodes).0 ≡ ok tt
      → FreshFrom 0 (group k n).macs
      → SeenAt macs (group k n) j mac
      → (n' : Node) × (get_elem? (add_macs macs k nodes).1 a ≡ some n')
        × (contains (group k n').macs (some mac) ≡ true)
  unfolding add_macs
  add_macs_complete j mac done fresh seen =
      let (r, new) = each_node_ok (add_macs_node macs k) nodes a n done h in
      let zero_add : 0 + j ≡ j = omega arith in
      (
        (add_macs_node macs k n).1,
        new,
        rw group-set_group (
            learn_ports_complete macs (group k n).ports 0 j (group k n) seen.switch seen.port
              seen.table mac r fresh seen.at_port (rw zero_add seen.at_switch) seen.has_table
              seen.only),
      )
