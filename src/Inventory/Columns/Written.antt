-- ===== src/Inventory/Columns/Written.antt =====
-- What the nodes are behind one write of `update_nodes`.
use cluster_genesis.Base.{
  ℕ, zero, suc, ◌+◌, ◌≤◌, max, ◌≡◌, refl, sym, ap, ◌∙◌, inl, inr, Bool, true, false, Option, none,
  some, List, [], ◌∷◌, ◌++◌, arith, leb, if◌then◌else◌, nat_beq_iff, nat_eq, ◌==◌, option_eq,
  Bool-cases, length, get_elem?, set, All, text_eq, item, ok,
}
use cluster_genesis.Base.Value.{Value, Fields, port_eq, end}
use cluster_genesis.Inventory.Columns.{write_column}
use cluster_genesis.Inventory.Columns.Places.{
  Place, key_of, fits, set_in_node-store, top, below, same,
}
use cluster_genesis.Inventory.Columns.Stored.{read, IsShaped, stored, store-stored, read-stored}

-- The value at a place of the node at an index.
abbrev pub read_at : List Fields → Place → ℕ → Option Value
read_at nodes p i = elim (get_elem? nodes i) [ none ↦ none | some fs ↦ read p fs ]

-- The nodes with one more where the index is behind the last one.
abbrev grown : List Fields → ℕ → List Fields
grown nodes index = if leb (length nodes) index then nodes ++ end ∷ [] else nodes

abbrev pub node_at : List Fields → ℕ → Fields
node_at nodes i = elim (get_elem? nodes i) [ none ↦ end | some fs ↦ fs ]

read-end : (p : Place) → read p end ≡ none
read-end (top k) = refl
read-end (below k0 k1) = refl

read-node_at :
    (nodes : List Fields) (p : Place) (i : ℕ) → read p (node_at nodes i) ≡ read_at nodes p i
read-node_at [] p i = read-end p
read-node_at (fs ∷ nodes) p zero = refl
read-node_at (fs ∷ nodes) p (suc i) = read-node_at nodes p i

pub node_at-IsShaped :
    (nodes : List Fields) (i : ℕ) → All IsShaped nodes → IsShaped (node_at nodes i)
node_at-IsShaped [] i h = λ k g. tt
node_at-IsShaped (fs ∷ nodes) zero h = h.0
node_at-IsShaped (fs ∷ nodes) (suc i) h = node_at-IsShaped nodes i h.1

-- The list behind a write at an index that is at most its length.
unfoldable pub written : List Fields → ℕ → Fields → List Fields
written [] i fs = fs ∷ []
written (n ∷ nodes) zero fs = fs ∷ nodes
written (n ∷ nodes) (suc i) fs = n ∷ written nodes i fs

grown-suc :
    (n : Fields) (nodes : List Fields) (i : ℕ) → grown (n ∷ nodes) (suc i) ≡ n ∷ grown nodes i
grown-suc n nodes i = ground arith

item-grown :
    (nodes : List Fields) (i : ℕ) → i ≤ length nodes → item (grown nodes i) i ≡ ok (node_at nodes i)
item-grown [] zero h = refl
item-grown [] (suc i) h = absurd (omega arith)
item-grown (n ∷ nodes) zero h = ground arith
item-grown (n ∷ nodes) (suc i) h =
    ap (λ ns. item ns (suc i)) (grown-suc n nodes i) ∙ item-grown nodes i (omega arith)

set-grown :
    (nodes : List Fields) (i : ℕ) (fs : Fields)
    → i ≤ length nodes
    → set (grown nodes i) i fs ≡ written nodes i fs
unfolding written
set-grown [] zero fs h = refl
set-grown [] (suc i) fs h = absurd (omega arith)
set-grown (n ∷ nodes) zero fs h = ground arith
set-grown (n ∷ nodes) (suc i) fs h =
    ap (λ ns. set ns (suc i) fs) (grown-suc n nodes i)
    ∙ ap (λ ns. n ∷ ns) (set-grown nodes i fs (omega arith))

pub written-IsShaped :
    (nodes : List Fields) (i : ℕ) (fs : Fields)
    → All IsShaped nodes
    → IsShaped fs
    → All IsShaped (written nodes i fs)
unfolding written
written-IsShaped [] i fs h s = (s, tt)
written-IsShaped (n ∷ nodes) zero fs h s = (s, h.1)
written-IsShaped (n ∷ nodes) (suc i) fs h s = (h.0, written-IsShaped nodes i fs h.1 s)

pub length-written :
    (nodes : List Fields) (i : ℕ) (fs : Fields)
    → i ≤ length nodes
    → length (written nodes i fs) ≡ max (length nodes) (suc i)
unfolding written
length-written [] i fs h = omega arith
length-written (n ∷ nodes) zero fs h = omega arith
length-written (n ∷ nodes) (suc i) fs h = omega (arith, length-written nodes i fs (omega arith))

==_suc : (i j : ℕ) → (i == j) ≡ (suc i == suc j)
==_suc i j = ground arith

pub if_same : {A : Type 0} (b : Bool) (x : A) → (if b then x else x) ≡ x
if_same true x = refl
if_same false x = refl

read-written :
    (nodes : List Fields) (i j : ℕ) (fs : Fields) (p : Place)
    → i ≤ length nodes
    → read_at (written nodes i fs) p j ≡ (if i == j then read p fs else read_at nodes p j)
unfolding written
read-written [] zero zero fs p h = refl
read-written [] zero (suc j) fs p h = ground arith
read-written [] (suc i) j fs p h = absurd (omega arith)
read-written (n ∷ nodes) zero zero fs p h = refl
read-written (n ∷ nodes) zero (suc j) fs p h = ground arith
read-written (n ∷ nodes) (suc i) zero fs p h = ground arith
read-written (n ∷ nodes) (suc i) (suc j) fs p h =
    read-written nodes i j fs p (omega arith)
    ∙ ap (λ b. if b then read p fs else read_at nodes p j) (==_suc i j)

pub if_if :
    {A : Type 0} (b : Bool) (f : A → A) (x y : A)
    → (if b then f (if b then x else y) else if b then x else y) ≡ (if b then f x else y)
if_if true f x y = refl
if_if false f x y = refl

-- One round of the inner loop.
pub round :
    (p : Place) (v : Value) (vs : List Value) (i : ℕ) (nodes : List Fields)
    → fits p ≡ true
    → All IsShaped nodes
    → i ≤ length nodes
    → write_column (key_of p) i (v ∷ vs) nodes
      ≡ write_column (key_of p) (i + 1) vs (written nodes i (stored p v (node_at nodes i)))
unfolding write_column
round p v vs i nodes h s le = rw (item-grown nodes i le) (
    rw (set_in_node-store p v (node_at nodes i) h) (
      rw (store-stored p v (node_at nodes i) h (node_at-IsShaped nodes i s))
        (ap (write_column (key_of p) (i + 1) vs) (set-grown nodes i _ le))))

-- What the places of the nodes hold behind a round.
pub read-round :
    (p q : Place) (v : Value) (i j : ℕ) (nodes : List Fields)
    → fits p ≡ true
    → fits q ≡ true
    → i ≤ length nodes
    → read_at (written nodes i (stored p v (node_at nodes i))) q j
      ≡ (if same p q then if i == j then some v else read_at nodes q j else read_at nodes q j)
read-round p q v i j nodes h g le =
    read-written nodes i j (stored p v (node_at nodes i)) q le ∙ elim (Bool-cases (i == j)) [
      | inl e ↦ rw e (
          read-stored p q v (node_at nodes i) h g
          ∙ ap (λ o. if same p q then some v else o)
              (read-node_at nodes q i ∙ ap (read_at nodes q) ((nat_beq_iff i j).0 e)))
      | inr e ↦ rw e (sym (if_same (same p q) (read_at nodes q j)))
    ]
