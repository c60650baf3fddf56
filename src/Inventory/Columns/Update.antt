-- ===== src/Inventory/Columns/Update.antt =====
-- `update_nodes`: every value of every list stands at its place in its node.
-- The values from an index on, above an old value.
use cluster_genesis.Base.{
  ℕ, zero, suc, ◌+◌, ◌≤◌, ◌<◌, max, ◌≡◌, refl, sym, ap, ◌∙◌, true, Option, none, some, List, [],
  ◌∷◌, arith, if◌then◌else◌, nat_eq, ◌==◌, option_eq, length, get_elem?, All, text_eq, ok,
}
use cluster_genesis.Base.Value.{Value, Fields, port_eq}
use cluster_genesis.Inventory.Columns.{write_column, write_columns}
use cluster_genesis.Inventory.Columns.Places.{Place, key_of, same, fits, keyed}
use cluster_genesis.Inventory.Columns.Stored.{IsShaped, stored, stored-IsShaped}
use cluster_genesis.Inventory.Columns.Written.{
  read_at, node_at, node_at-IsShaped, written, written-IsShaped, length-written, if_same, round,
  read-round, if_if,
}

abbrev pub over : List Value → ℕ → ℕ → Option Value → Option Value
over [] index i old = old
over (v ∷ vs) index i old = over vs (index + 1) i (if index == i then some v else old)

-- What a list changes: the values at its own place, and the number of nodes.
abbrev Wrote : Place → List Value → ℕ → List Fields → List Fields → Type 0
Wrote p vs i nodes nodes' =
    All IsShaped nodes'
    × (length nodes' ≡ max (length nodes) (i + length vs))
    × ((q : Place)
        → fits q ≡ true
        → (j : ℕ)
        → read_at nodes' q j
          ≡ (if same p q then over vs i j (read_at nodes q j) else read_at nodes q j))

write_column-Wrote :
    (p : Place) (vs : List Value) (i : ℕ) (nodes : List Fields)
    → fits p ≡ true
    → All IsShaped nodes
    → i ≤ length nodes
    → (nodes' : List Fields) × (write_column (key_of p) i vs nodes ≡ ok nodes')
      × Wrote p vs i nodes nodes'
unfolding write_column
write_column-Wrote p [] i nodes h s le =
    (nodes, refl, (s, omega arith, λ q g j. sym (if_same (same p q) (read_at nodes q j))))
write_column-Wrote p (v ∷ vs) i nodes h s le =
    let next = written nodes i (stored p v (node_at nodes i)) in
    let long : length next ≡ max (length nodes) (suc i) = length-written nodes i _ le in
    let shaped : All IsShaped next =
      written-IsShaped nodes i _ s
        (stored-IsShaped p v (node_at nodes i) h (node_at-IsShaped nodes i s)) in
    let (nodes', run, (s', n, reads)) =
      write_column-Wrote p vs (i + 1) next h shaped (omega (arith, long)) in
    (
      nodes',
      round p v vs i nodes h s le ∙ run,
      (
        s',
        omega (arith, n, long),
        λ q g j.
            reads q g j
            ∙ ap (λ o. if same p q then over vs (i + 1) j o else o)
                (read-round p q v i j nodes h g le)
            ∙ if_if (same p q) (over vs (i + 1) j) (if i == j then some v else read_at nodes q j)
                (read_at nodes q j),
      ),
    )

-- The value of a list at an index, or the old one behind its end.
abbrev pub at_or : List Value → ℕ → Option Value → Option Value
at_or vs i old = elim (get_elem? vs i) [ none ↦ old | some v ↦ some v ]

over-behind : (vs : List Value) (i j : ℕ) (old : Option Value) → j < i → over vs i j old ≡ old
over-behind [] i j old h = refl
over-behind (v ∷ vs) i j old h = ground (arith, over-behind vs (i + 1) j old (omega arith))

later : (i j : ℕ) (x y : Option Value) → (if i == i + suc j then x else y) ≡ y
later i j x y = ground arith

over-at_or :
    (vs : List Value) (i j : ℕ) (old : Option Value) → over vs i (i + j) old ≡ at_or vs j old
over-at_or [] i j old = refl
over-at_or (v ∷ vs) i zero old =
    over-behind vs (i + 1) (i + 0) (if i == i + 0 then some v else old) (omega arith) ∙ ground arith
over-at_or (v ∷ vs) i (suc j) old =
    ap (over vs (i + 1) (i + suc j)) (later i j (some v) old)
    ∙ ap (λ k. over vs (i + 1) k old) (omega arith)
    ∙ over-at_or vs (i + 1) j old

-- The value that the lists with the place give, above an old one.
abbrev pub given : List (Place × List Value) → Place → ℕ → Option Value → Option Value
given [] q i old = old
given ((p, vs) ∷ ps) q i old = given ps q i (if same p q then at_or vs i old else old)

abbrev pub longest : List (Place × List Value) → ℕ
longest [] = 0
longest ((p, vs) ∷ ps) = max (length vs) (longest ps)

pub write_columns-given :
    (ps : List (Place × List Value)) (nodes : List Fields)
    → All (λ e. fits e.0 ≡ true) ps
    → All IsShaped nodes
    → (nodes' : List Fields) × (write_columns (keyed ps) nodes ≡ ok nodes')
      × (length nodes' ≡ max (length nodes) (longest ps))
      × ((q : Place)
          → fits q ≡ true
          → (j : ℕ) → read_at nodes' q j ≡ given ps q j (read_at nodes q j))
unfolding write_columns
write_columns-given [] nodes hs s = (nodes, refl, omega arith, λ q g j. refl)
write_columns-given ((p, vs) ∷ ps) nodes hs s =
    let (next, run, (s', n, reads)) = write_column-Wrote p vs 0 nodes hs.0 s (omega arith) in
    let (nodes', run', n', reads') = write_columns-given ps next hs.1 s' in
    (
      nodes',
      rw run run',
      omega (arith, n, n'),
      λ q g j.
          reads' q g j
          ∙ ap (given ps q j) (
              reads q g j
              ∙ ap (λ o. if same p q then o else read_at nodes q j)
                  (ap (λ k. over vs 0 k (read_at nodes q j)) (omega arith)
                    ∙ over-at_or vs 0 j (read_at nodes q j))),
    )
