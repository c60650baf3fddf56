-- ===== src/Inventory/Macs/Stored.antt =====
-- No MAC is recorded twice in a node, a first run records every MAC, and the file follows.
use cluster_genesis.Base.{
  ℕ, ◌+◌, ◌<◌, ◌≡◌, inl, inr, Bool, true, false, Option, some, List, [], ◌∷◌, arith, nat_eq,
  option_eq, Bool-cases, length, get_elem?, set, get_elem?-set, contains, contains-get_elem?, Text,
  text_eq, set_item_ok, Result-cases, ok,
}
use cluster_genesis.Base.Value.{Port, port_eq}
use cluster_genesis.Inventory.{Group, Macs, record_item}
use cluster_genesis.Inventory.Macs.{learn_port, learn_ports}
use cluster_genesis.Inventory.Macs.Learned.{learn_port_cases}

-- No MAC stands at two indices.
abbrev pub Distinct : List (Option Text) → Type 0
Distinct xs =
    (i j : ℕ) (m : Text) → get_elem? xs i ≡ some (some m) → get_elem? xs j ≡ some (some m) → i ≡ j

-- A write of a value that stands nowhere.
set-Distinct :
    (x : Text) (i : ℕ) (xs : List (Option Text))
    → i < length xs
    → Distinct xs
    → ((j : ℕ) → get_elem? xs j ≡ some (some x) → ⊥)
    → Distinct (set xs i (some x))
set-Distinct x i xs lt d fresh a b m p q = elim (get_elem?-set xs i a (some x) lt) [
  | inl sa ↦ elim (get_elem?-set xs i b (some x) lt) [
    | inl sb ↦ d a b m (cc (sa, p)) (cc (sb, q))
    | inr (eb, sb) ↦ absurd (fresh a (cc (sa, p, sb, q)))
  ]
  | inr (ea, sa) ↦ elim (get_elem?-set xs i b (some x) lt) [
    | inl sb ↦ absurd (fresh b (cc (sa, p, sb, q)))
    | inr (eb, sb) ↦ cc (ea, eb)
  ]
]

record_item-Distinct :
    (x : Text) (i : ℕ) (xs ys : List (Option Text))
    → record_item x i xs ≡ ok ys
    → Distinct xs
    → Distinct ys
unfolding record_item
record_item-Distinct x i xs ys h d = elim (Bool-cases (contains xs (some x))) [
  | inl e ↦ let same : ys ≡ xs = ground arith in rw same d
  | inr e ↦
      let (s, lt) = set_item_ok xs i (some x) {ys = ys} (ground arith) in
      rw s (set-Distinct x i xs lt d (λ j p. absurd_of (contains-get_elem? xs j (some x) p) e))
]
  where
    absurd_of : {b : Bool} → b ≡ true → b ≡ false → ⊥
    absurd_of p q = cc

learn_port-Distinct :
    (macs : Macs) (p : Port) (i : ℕ) (g g' : Group)
    → learn_port macs p i g ≡ ok g'
    → Distinct g.macs
    → Distinct g'.macs
learn_port-Distinct macs p i g g' h d = elim (learn_port_cases macs p i g g' h) [
  | inl e ↦ rw e d
  | inr r ↦ rw r.result (record_item-Distinct r.mac i g.macs r.ms r.written d)
]

-- Whether or not the loop of `_add_macs` raises, a MAC list in which no MAC stands twice is one
-- afterwards.
pub learn_ports-Distinct :
    (macs : Macs) (ps : List Port) (i : ℕ) (g : Group)
    → Distinct g.macs
    → Distinct (learn_ports macs ps i g).1.macs
unfolding learn_ports
learn_ports-Distinct macs [] i g d = d
learn_ports-Distinct macs (p ∷ ps) i g d = elim (Result-cases (learn_port macs p i g)) [
  | inl (g', h) ↦
      rw (h, learn_ports)
        (learn_ports-Distinct macs ps (i + 1) g' (learn_port-Distinct macs p i g g' h d))
  | inr (e, h) ↦ rw (h, learn_ports) d
]
