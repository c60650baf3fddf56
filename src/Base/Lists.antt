-- ===== src/Base/Lists.antt =====
-- Python lists, indexed and measured by the native numbers.
use Prim.Native.Nat.{ℕ, zero, suc, ◌+◌, ◌<◌, ◌≤◌}
use mathlib.Core.Path.{◌≡◌, refl, ap, sym}
use mathlib.Core.Logic.{◌≢◌, ◌⊎◌, inl, inr}
use mathlib.Core.Bool.{Bool, true, false, ◌||◌}
use mathlib.Core.List.{List, [], ◌∷◌, ◌++◌}
use mathlib.Core.Option.{Option, none, some}
use native.Mathlib.Omega.{arith}
use native.Mathlib.Decide.{ℕ_discrete}
use package.cluster_genesis.Base.Tests.{Eq, ◌==◌, Bool-cases}

module _ {ℓ} {A : Type ℓ} where
  abbrev pub length : List A → ℕ
  length [] = 0
  length (x ∷ xs) = suc (length xs)

  abbrev pub get_elem? : List A → ℕ → Option A
  get_elem? [] i = none
  get_elem? (x ∷ xs) zero = some x
  get_elem? (x ∷ xs) (suc i) = get_elem? xs i

  -- A write out of bounds changes nothing.
  abbrev pub set : List A → ℕ → A → List A
  set [] i v = []
  set (x ∷ xs) zero v = v ∷ xs
  set (x ∷ xs) (suc i) v = x ∷ set xs i v

  pub length-append : (xs ys : List A) → length (xs ++ ys) ≡ length xs + length ys
  length-append [] ys = omega arith
  length-append (x ∷ xs) ys = omega (arith, length-append xs ys)

  pub length-set : (xs : List A) (i : ℕ) (v : A) → length (set xs i v) ≡ length xs
  length-set [] i v = refl
  length-set (x ∷ xs) zero v = refl
  length-set (x ∷ xs) (suc i) v = ap suc (length-set xs i v)

  pub get_elem?-set_self :
      (xs : List A) (i : ℕ) (v : A) → i < length xs → get_elem? (set xs i v) i ≡ some v
  get_elem?-set_self [] i v h = elim h [ ]
  get_elem?-set_self (x ∷ xs) zero v h = refl
  get_elem?-set_self (x ∷ xs) (suc i) v h = get_elem?-set_self xs i v (omega arith)

  pub get_elem?-set_ne :
      (xs : List A) (i j : ℕ) (v : A) → i ≢ j → get_elem? (set xs i v) j ≡ get_elem? xs j
  get_elem?-set_ne [] i j v h = refl
  get_elem?-set_ne (x ∷ xs) zero zero v h = absurd (h refl)
  get_elem?-set_ne (x ∷ xs) zero (suc j) v h = refl
  get_elem?-set_ne (x ∷ xs) (suc i) zero v h = refl
  get_elem?-set_ne (x ∷ xs) (suc i) (suc j) v h = get_elem?-set_ne xs i j v (λ e. h (ap suc e))

  pub get_elem?-lt : (xs : List A) (i : ℕ) (a : A) → get_elem? xs i ≡ some a → i < length xs
  get_elem?-lt [] i a h = cc
  get_elem?-lt (x ∷ xs) zero a h = omega arith
  get_elem?-lt (x ∷ xs) (suc i) a h = omega (arith, get_elem?-lt xs i a h)

  pub get_elem?-set :
      (xs : List A) (i j : ℕ) (v : A)
      → i < length xs
      → (get_elem? (set xs i v) j ≡ get_elem? xs j)
        ⊎ ((j ≡ i) × (get_elem? (set xs i v) j ≡ some v))
  get_elem?-set xs i j v h = elim (ℕ_discrete j i) [
    | yes e ↦ inr (e, rw e (get_elem?-set_self xs i v h))
    | no n ↦ inl (get_elem?-set_ne xs i j v (λ e. n (sym e)))
  ]

-- Every element satisfies `P`.
abbrev pub All {ℓ κ} : {A : Type ℓ} → (A → Type κ) → List A → Type κ
All P [] = Unit
All P (x ∷ xs) = P x × All P xs

module _ {ℓ} {A : Type ℓ} ⦃e : Eq A⦄ where
  -- `a in xs`
  abbrev pub contains : List A → A → Bool
  contains [] wanted = false
  contains (y ∷ ys) wanted = wanted == y || contains ys wanted

  -- `xs.index(a)`; `none` is the `ValueError`.
  abbrev pub index_of? : List A → A → Option ℕ
  index_of? [] a = none
  index_of? (x ∷ xs) a = elim (a == x) [
    | true ↦ some 0
    | false ↦ elim (index_of? xs a) [ none ↦ none | some i ↦ some (suc i) ]
  ]

  pub contains-append :
      (xs ys : List A) (a : A) → contains (xs ++ ys) a ≡ (contains xs a || contains ys a)
  contains-append [] ys a = refl
  contains-append (x ∷ xs) ys a = ground (arith, contains-append xs ys a)

  pub contains-get_elem? :
      (xs : List A) (i : ℕ) (a : A) → get_elem? xs i ≡ some a → contains xs a ≡ true
  contains-get_elem? [] i a h = cc
  contains-get_elem? (x ∷ xs) zero a h = ground (arith, e.beq_iff a x)
  contains-get_elem? (x ∷ xs) (suc i) a h = ground (arith, contains-get_elem? xs i a h)

  pub get_elem?-contains :
      (xs : List A) (a : A) → contains xs a ≡ true → (i : ℕ) × (get_elem? xs i ≡ some a)
  get_elem?-contains [] a h = absurd (cc)
  get_elem?-contains (x ∷ xs) a h = elim (Bool-cases (a == x)) [
    | inl same ↦ (0, ap some (sym ((e.beq_iff a x).0 same)))
    | inr differ ↦ let (i, p) = get_elem?-contains xs a (ground arith) in (suc i, p)
  ]

  -- A write keeps the values that stand elsewhere.
  pub contains-set :
      (xs : List A) (i : ℕ) (v a : A)
      → get_elem? xs i ≢ some a
      → contains xs a ≡ true
      → contains (set xs i v) a ≡ true
  contains-set [] i v a n h = h
  contains-set (x ∷ xs) zero v a n h =
      ground (arith, e.beq_iff a x, λ (p : a ≡ x). n (ap some (sym p)))
  contains-set (x ∷ xs) (suc i) v a n h = ground (arith, contains-set xs i v a n)

  pub index_of?-get_elem? :
      (xs : List A) (a : A) (i : ℕ) → index_of? xs a ≡ some i → get_elem? xs i ≡ some a
  index_of?-get_elem? [] a i h = cc
  index_of?-get_elem? (x ∷ xs) a zero h = ground (arith, e.beq_iff a x)
  index_of?-get_elem? (x ∷ xs) a (suc i) h =
      ground (arith, index_of?-get_elem? xs a i, e.beq_iff a x)

  pub index_of?-none : (xs : List A) (a : A) → index_of? xs a ≡ none → contains xs a ≡ false
  index_of?-none [] a h = refl
  index_of?-none (x ∷ xs) a h = ground (arith, index_of?-none xs a)

  pub index_of?-absent : (xs : List A) (a : A) → contains xs a ≡ false → index_of? xs a ≡ none
  index_of?-absent [] a h = refl
  index_of?-absent (x ∷ xs) a h = ground (arith, index_of?-absent xs a)

pub get_elem?-in {ℓ} :
    {A : Type ℓ} (xs : List A) (i : ℕ) → i < length xs → (a : A) × (get_elem? xs i ≡ some a)
get_elem?-in [] i h = absurd (omega arith)
get_elem?-in (x ∷ xs) zero h = (x, refl)
get_elem?-in (x ∷ xs) (suc i) h = get_elem?-in xs i (omega arith)

pub get_elem?-out {ℓ} : {A : Type ℓ} (xs : List A) (i : ℕ) → length xs ≤ i → get_elem? xs i ≡ none
get_elem?-out [] i h = refl
get_elem?-out (x ∷ xs) zero h = absurd (omega arith)
get_elem?-out (x ∷ xs) (suc i) h = get_elem?-out xs i (omega arith)
