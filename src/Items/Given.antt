-- ===== src/Items/Given.antt =====
-- The addresses that interfaces have, and how an assignment changes them.
use cluster_genesis.Base.{
  ◌≡◌, refl, sym, ◌∙◌, subst, inl, inr, true, false, Option, none, some, some-injective, List, [],
  ◌∷◌, arith, if◌then◌else◌, nat_eq, ◌==◌, ==_refl, option_eq, Bool-cases, Text, codes,
  text_beq_iff, text_eq, lookup, has_key, insert, lookup-insert, has_key-lookup,
}
use cluster_genesis.Base.Value.{Value, port_eq}
use cluster_genesis.Config.Templates.Interfaces.{Interface}
use cluster_genesis.Items.{list_key}

-- What an interface has at its key for the address.
abbrev pub address_of : Interface → Option Value
address_of d = elim (list_key d) [ none ↦ none | some key ↦ lookup key d ]

-- The addresses that the interfaces with the label have, in order.
abbrev pub given : Text → List (Text × Interface) → List Value
given label [] = []
given label ((l, d) ∷ interfaces) =
    let rest = given label interfaces in
    if l == label then elim (address_of d) [ none ↦ rest | some v ↦ v ∷ rest ] else rest

has_key-insert :
    (k j : Text) (v : Value) (d : Interface)
    → has_key j (insert k v d) ≡ (if k == j then true else has_key j d)
has_key-insert k j v d =
    ground (arith, has_key-lookup j (insert k v d), has_key-lookup j d, lookup-insert k j v d)

none_some {ℓ κ} : {A : Type ℓ} {B : Type κ} {a : A} → none ≡ some a → B
none_some h = cc

list_key-has_key : (d : Interface) (key : Text) → list_key d ≡ some key → has_key key d ≡ true
unfolding list_key
list_key-has_key d key h = elim (Bool-cases (has_key (codes "IPADDR") d)) [
  | inl y ↦ subst (λ k. has_key k d ≡ true) (some-injective _ _ (rw y at h)) y
  | inr n ↦ elim (Bool-cases (has_key (codes "address") d)) [
    | inl y ↦ subst (λ k. has_key k d ≡ true) (some-injective _ _ (rw (n, y) at h)) y
    | inr m ↦ none_some (rw (n, m) at h)
  ]
]

has_key-kept :
    (k j : Text) (v : Value) (d : Interface)
    → has_key k d ≡ true
    → has_key j (insert k v d) ≡ has_key j d
has_key-kept k j v d h = elim (Bool-cases (k == j)) [
  | inl y ↦
      has_key-insert k j v d
      ∙ rw y (sym (subst (λ i. has_key i d ≡ true) ((text_beq_iff k j).0 y) h))
  | inr n ↦ has_key-insert k j v d ∙ rw n refl
]

list_key-insert :
    (d : Interface) (key : Text) (v : Value)
    → list_key d ≡ some key
    → list_key (insert key v d) ≡ some key
unfolding list_key
list_key-insert d key v h =
    let kept = list_key-has_key d key h in
    rw (has_key-kept key (codes "IPADDR") v d kept, has_key-kept key (codes "address") v d kept) h

pub address_of-insert :
    (d : Interface) (key : Text) (v : Value)
    → list_key d ≡ some key
    → address_of (insert key v d) ≡ some v
address_of-insert d key v h =
    rw (list_key-insert d key v h, address_of) (rw (lookup-insert key key v d, ==_refl key) refl)

-- What `given` has of an interface in front.
pub given-own :
    (label : Text) (d : Interface) (v : Value) (done : List (Text × Interface))
    → address_of d ≡ some v
    → given label ((label, d) ∷ done) ≡ v ∷ given label done
given-own label d v done h = rw (==_refl label, h) refl

pub given-other :
    (l label : Text) (d : Interface) (done : List (Text × Interface))
    → (l == label) ≡ false
    → given label ((l, d) ∷ done) ≡ given label done
given-other l label d done h = rw h refl

pub given-none :
    (l label : Text) (d : Interface) (done : List (Text × Interface))
    → list_key d ≡ none
    → given label ((l, d) ∷ done) ≡ given label done
given-none l label d done h = elim (Bool-cases (l == label)) [
  | inl y ↦ rw (y, h) refl
  | inr n ↦ rw n refl
]
