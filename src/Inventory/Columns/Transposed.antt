-- ===== src/Inventory/Columns/Transposed.antt =====
-- `update_nodes` against its description: the nodes are the lists, transposed.
-- No place stands twice.
use cluster_genesis.Base.{
  ℕ, zero, suc, ◌≡◌, refl, ap, ◌∙◌, Bool, true, false, not, ◌&&◌, Option, none, List, [], ◌∷◌,
  arith, if◌then◌else◌, nat_eq, ==_refl, option_eq, length, get_elem?, All, text_beq, text_eq, ok,
}
use cluster_genesis.Base.Value.{Value, Fields, port_eq}
use cluster_genesis.Inventory.Columns.{Columns, write_columns, update_nodes}
use cluster_genesis.Inventory.Columns.Places.{Place, places, flatten-places, same, fits, top, below}
use cluster_genesis.Inventory.Columns.Update.{at_or, given, longest, write_columns-given}
use cluster_genesis.Inventory.Columns.Written.{read_at}

abbrev Distinct : List (Place × List Value) → Type 0
Distinct [] = Unit {0}
Distinct ((p, vs) ∷ ps) = All (λ e. (same p e.0 ≡ false) × (same e.0 p ≡ false)) ps × Distinct ps

abbrev all_differ : Place → List (Place × List Value) → Bool
all_differ p [] = true
all_differ p ((q, vs) ∷ ps) = (not (same p q) && not (same q p)) && all_differ p ps

abbrev fit_and_differ : List (Place × List Value) → Bool
fit_and_differ [] = true
fit_and_differ ((p, vs) ∷ ps) = fits p && (all_differ p ps && fit_and_differ ps)

all_differ-All :
    (p : Place) (ps : List (Place × List Value))
    → all_differ p ps ≡ true
    → All (λ e. (same p e.0 ≡ false) × (same e.0 p ≡ false)) ps
all_differ-All p [] h = tt
all_differ-All p ((q, vs) ∷ ps) h =
    ((ground arith, ground arith), all_differ-All p ps (ground arith))

fit_and_differ-Distinct :
    (ps : List (Place × List Value))
    → fit_and_differ ps ≡ true
    → All (λ e. fits e.0 ≡ true) ps × Distinct ps
fit_and_differ-Distinct [] h = (tt, tt)
fit_and_differ-Distinct ((p, vs) ∷ ps) h =
    let rest = fit_and_differ-Distinct ps (ground arith) in
    ((ground arith, rest.0), (all_differ-All p ps (ground arith), rest.1))

given-differ :
    (q : Place) (ps : List (Place × List Value)) (i : ℕ) (old : Option Value)
    → All (λ e. (same q e.0 ≡ false) × (same e.0 q ≡ false)) ps
    → given ps q i old ≡ old
given-differ q [] i old h = refl
given-differ q ((p, vs) ∷ ps) i old h = rw h.0.1 (given-differ q ps i old h.1)

places_fit : (c : Columns) → fit_and_differ (places c) ≡ true
unfolding fits text_beq
places_fit c = refl

place_refl : (p : Place) → same p p ≡ true
place_refl (top k) = ==_refl k
place_refl (below k0 k1) = rw (==_refl k0, ==_refl k1) refl

at_or-none : (vs : List Value) (i : ℕ) → at_or vs i none ≡ get_elem? vs i
at_or-none [] i = refl
at_or-none (v ∷ vs) zero = refl
at_or-none (v ∷ vs) (suc i) = at_or-none vs i

-- A list gives exactly its own values where no other list has its place.
given-own :
    (ps : List (Place × List Value))
    → Distinct ps
    → All (λ e. (i : ℕ) (old : Option Value) → given ps e.0 i old ≡ at_or e.1 i old) ps
given-own [] h = tt
given-own ((p, vs) ∷ ps) h = (
  λ i old.
      ap (λ b. given ps p i (if b then at_or vs i old else old)) (place_refl p)
      ∙ given-differ p ps i (at_or vs i old) h.0,
  skip ps h.0 (given-own ps h.1),
)
  where
    skip :
        (qs : List (Place × List Value))
        → All (λ e. (same p e.0 ≡ false) × (same e.0 p ≡ false)) qs
        → All (λ e. (i : ℕ) (old : Option Value) → given ps e.0 i old ≡ at_or e.1 i old) qs
        → All
            (λ e. (i : ℕ) (old : Option Value) → given ((p, vs) ∷ ps) e.0 i old ≡ at_or e.1 i old)
            qs
    skip [] d g = tt
    skip ((q, ws) ∷ qs) d g = (
      λ i old. ap (λ b. given ps q i (if b then at_or vs i old else old)) d.0.0 ∙ g.0 i old,
      skip qs d.1 g.1,
    )

at_places :
    (nodes : List Fields) (all : List (Place × List Value)) (ps : List (Place × List Value))
    → ((q : Place) → fits q ≡ true → (j : ℕ) → read_at nodes q j ≡ given all q j none)
    → All (λ e. fits e.0 ≡ true) ps
    → All (λ e. (i : ℕ) (old : Option Value) → given all e.0 i old ≡ at_or e.1 i old) ps
    → All (λ e. (i : ℕ) → read_at nodes e.0 i ≡ get_elem? e.1 i) ps
at_places nodes all [] reads h g = tt
at_places nodes all ((p, vs) ∷ ps) reads h g =
    (λ i. reads p h.0 i ∙ g.0 i none ∙ at_or-none vs i, at_places nodes all ps reads h.1 g.1)

-- `update_nodes` returns, with as many nodes as the longest list has values; and for each list, with
-- its key or its two keys, the node at an index has under them the value of the list at that index,
-- and nothing if the list is shorter.
pub update_nodes_correct :
    (c : Columns)
    → (nodes : List Fields) × (update_nodes c ≡ ok nodes)
      × (length nodes ≡ longest (places c))
      × All (λ e. (i : ℕ) → read_at nodes e.0 i ≡ get_elem? e.1 i) (places c)
unfolding update_nodes
update_nodes_correct c =
    let (hs, d) = fit_and_differ-Distinct (places c) (places_fit c) in
    let (nodes, run, n, reads) = write_columns-given (places c) [] hs tt in
    (
      nodes,
      ap (λ flat. write_columns flat []) (flatten-places c) ∙ run,
      omega (arith, n),
      at_places nodes (places c) (places c) reads hs (given-own (places c) d),
    )
