-- ===== src/Inventory/Columns/Stored.antt =====
-- What a node has at a place behind a write, and what the nodes have behind the writes of a list.
use cluster_genesis.Base.{
  ◌≡◌, refl, sym, ap, ◌∙◌, subst, inl, inr, true, false, Option, none, some, arith, if◌then◌else◌,
  nat_eq, ◌==◌, option_eq, Bool-cases, Text, text_beq_iff, text_eq, ok,
}
use cluster_genesis.Base.Value.{
  Value, Fields, port_eq, null, bool, int, str, list, dict, end, field,
}
use cluster_genesis.Inventory.Columns.{set_field, set_below}
use cluster_genesis.Inventory.Columns.Places.{Place, same, is_group, fits, store, top, below}
use cluster_genesis.Config.Access.{find_field}

abbrev pub find_in : Option Value → Text → Option Value
find_in (some (dict gs)) k = find_field gs k
find_in _ k = none

-- The value of a node at a place.
abbrev pub read : Place → Fields → Option Value
read (top k) fs = find_field fs k
read (below k0 k1) fs = find_in (find_field fs k0) k1

abbrev pub IsDict : Option Value → Type 0
IsDict none = Unit {0}
IsDict (some (dict gs)) = Unit {0}
IsDict (some _) = ⊥

-- Only dicts stand where dicts belong.
abbrev pub IsShaped : Fields → Type 0
IsShaped fs = (k : Text) → is_group k ≡ true → IsDict (find_field fs k)

pub find-set_field :
    (k j : Text) (v : Value) (fs : Fields)
    → find_field (set_field k v fs) j ≡ (if k == j then some v else find_field fs j)
find-set_field k j v end = refl
find-set_field k j v (field i w fs) =
    ground (arith, text_beq_iff k j, text_beq_iff i k, text_beq_iff i j, find-set_field k j v fs)

abbrev dict_at : Option Value → Fields
dict_at (some (dict gs)) = gs
dict_at _ = end

find-dict_at : (o : Option Value) (k : Text) → find_field (dict_at o) k ≡ find_in o k
find-dict_at none k = refl
find-dict_at (some null) k = refl
find-dict_at (some (bool b)) k = refl
find-dict_at (some (int n)) k = refl
find-dict_at (some (str t)) k = refl
find-dict_at (some (list vs)) k = refl
find-dict_at (some (dict gs)) k = refl

below_case :
    (o : Option Value) (k0 k1 : Text) (v : Value) (fs : Fields)
    → find_field fs k0 ≡ o
    → IsDict o
    → set_below k0 k1 v fs ≡ ok (set_field k0 (dict (set_field k1 v (dict_at o))) fs)
unfolding set_below
below_case none k0 k1 v fs e h = rw (e, set_below) refl
below_case (some null) k0 k1 v fs e h = absurd h
below_case (some (bool b)) k0 k1 v fs e h = absurd h
below_case (some (int n)) k0 k1 v fs e h = absurd h
below_case (some (str t)) k0 k1 v fs e h = absurd h
below_case (some (list vs)) k0 k1 v fs e h = absurd h
below_case (some (dict gs)) k0 k1 v fs e h = rw (e, set_below) refl

-- The node behind a write.
abbrev pub stored : Place → Value → Fields → Fields
stored (top k) v fs = set_field k v fs
stored (below k0 k1) v fs = set_field k0 (dict (set_field k1 v (dict_at (find_field fs k0)))) fs

pub store-stored :
    (p : Place) (v : Value) (fs : Fields)
    → fits p ≡ true
    → IsShaped fs
    → store p v fs ≡ ok (stored p v fs)
unfolding store fits
store-stored (top k) v fs h s = refl
store-stored (below k0 k1) v fs h s = below_case _ k0 k1 v fs refl (s k0 (ground arith))

set_field-IsShaped :
    (k : Text) (v : Value) (fs : Fields)
    → (is_group k ≡ true → IsDict (some v))
    → IsShaped fs
    → IsShaped (set_field k v fs)
set_field-IsShaped k v fs d s j g = elim (Bool-cases (k == j)) [
  | inl e ↦
      rw (find-set_field k j v fs)
        (rw e (d (subst (λ t. is_group t ≡ true) (sym ((text_beq_iff k j).0 e)) g)))
  | inr e ↦ rw (find-set_field k j v fs) (rw e (s j g))
]

not_group : (k : Text) → fits (top k) ≡ true → is_group k ≡ false
unfolding fits
not_group k h = ground arith

key_ne : (k j : Text) → is_group k ≡ false → is_group j ≡ true → (k == j) ≡ false
key_ne k j h g = elim (Bool-cases (k == j)) [
  | inl e ↦ absurd (cc (h, g, (text_beq_iff k j).0 e))
  | inr e ↦ e
]

key_ne' : (k j : Text) → is_group k ≡ true → is_group j ≡ false → (k == j) ≡ false
key_ne' k j h g = elim (Bool-cases (k == j)) [
  | inl e ↦ absurd (cc (h, g, (text_beq_iff k j).0 e))
  | inr e ↦ e
]

a_group : (k0 k1 : Text) → fits (below k0 k1) ≡ true → is_group k0 ≡ true
unfolding fits
a_group k0 k1 h = ground arith

pub stored-IsShaped :
    (p : Place) (v : Value) (fs : Fields) → fits p ≡ true → IsShaped fs → IsShaped (stored p v fs)
stored-IsShaped (top k) v fs h s = set_field-IsShaped k v fs (λ g. absurd (cc (not_group k h, g))) s
stored-IsShaped (below k0 k1) v fs h s = set_field-IsShaped k0 _ fs (λ g. tt) s

-- The value at a place below a key, behind a write of a dict at a key.
below_written :
    (k0 j0 j1 : Text) (w : Value) (fs : Fields)
    → find_in (find_field (set_field k0 w fs) j0) j1
      ≡ (if k0 == j0 then find_in (some w) j1 else find_in (find_field fs j0) j1)
below_written k0 j0 j1 w fs = elim (Bool-cases (k0 == j0)) [
  | inl e ↦ rw (find-set_field k0 j0 w fs) (rw e refl)
  | inr e ↦ rw (find-set_field k0 j0 w fs) (rw e refl)
]

-- A write changes its own place only.
pub read-stored :
    (p q : Place) (v : Value) (fs : Fields)
    → fits p ≡ true
    → fits q ≡ true
    → read q (stored p v fs) ≡ (if same p q then some v else read q fs)
read-stored (top k) (top j) v fs h g = find-set_field k j v fs
read-stored (top k) (below j0 j1) v fs h g =
    below_written k j0 j1 v fs ∙ rw (key_ne k j0 (not_group k h) (a_group j0 j1 g)) refl
read-stored (below k0 k1) (top j) v fs h g =
    find-set_field k0 j _ fs ∙ rw (key_ne' k0 j (a_group k0 k1 h) (not_group j g)) refl
read-stored (below k0 k1) (below j0 j1) v fs h g =
    below_written k0 j0 j1 _ fs ∙ elim (Bool-cases (k0 == j0)) [
      | inl e ↦ rw e (
          find-set_field k1 j1 v (dict_at (find_field fs k0))
          ∙ ap (λ o. if k1 == j1 then some v else o)
              (find-dict_at (find_field fs k0) j1
                ∙ ap (λ k. find_in (find_field fs k) j1) ((text_beq_iff k0 j0).0 e)))
      | inr e ↦ rw e refl
    ]
