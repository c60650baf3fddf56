-- ===== src/Base/Results.antt =====
-- Python exceptions as values.
use mathlib.Core.Path.{◌≡◌, refl}
use mathlib.Core.List.{List, [], ◌∷◌}
use mathlib.Core.Option.{Option, none, some}
use Prim.Native.Nat.{ℕ}
use package.cluster_genesis.Base.Tests.{Option-cases}
use native.Mathlib.Omega.{arith}
use mathlib.Core.Logic.{◌⊎◌, inl, inr}
use Prim.Native.Nat.{◌<◌}
use package.cluster_genesis.Base.Lists.{length, get_elem?-lt, get_elem?, set}

-- The exception classes that the modelled code raises.
pub data Exc : Type 0 where
  user_exception switch_exception key_error index_error value_error : Exc
  attribute_error type_error system_exit : Exc
  user_critical_exception ssh_exception : Exc

pub data Result {ℓ} (A : Type ℓ) : Type ℓ where
  ok : A → Result A
  err : Exc → Result A

infixl 5 ◌>>=◌ ◌>>◌
abbrev pub ◌>>=◌ {ℓ κ} : {A : Type ℓ} {B : Type κ} → Result A → (A → Result B) → Result B
ok a >>= f = f a
err e >>= f = err e

abbrev pub ◌>>◌ {ℓ κ} : {A : Type ℓ} {B : Type κ} → Result A → Result B → Result B
m >> k = m >>= λ _. k

-- A lookup that raises `e` where nothing is found.
abbrev pub or_raise {ℓ} : {A : Type ℓ} → Option A → Exc → Result A
or_raise none e = err e
or_raise (some a) e = ok a

-- `xs[i]`
abbrev pub item {ℓ} : {A : Type ℓ} → List A → ℕ → Result A
item xs i = or_raise (get_elem? xs i) index_error

-- `xs[i] = v`
abbrev pub set_item {ℓ} : {A : Type ℓ} → List A → ℕ → A → Result (List A)
set_item xs i v = elim (get_elem? xs i) [ none ↦ err index_error | some _ ↦ ok (set xs i v) ]

-- Inversion of a successful bind, for proofs where the parts stay shut.
pub >>=-eq-ok {μ ν} :
    {V : Type μ} {W : Type ν} (r : Result V) (k : V → Result W) {w : W}
    → (r >>= k) ≡ ok w
    → (v : V) × (r ≡ ok v) × (k v ≡ ok w)
>>=-eq-ok (err x) k run = cc
>>=-eq-ok (ok v) k run = (v, refl, run)

pub set_item_ok {ℓ} :
    {A : Type ℓ} (xs : List A) (i : ℕ) (v : A) {ys : List A}
    → set_item xs i v ≡ ok ys
    → (ys ≡ set xs i v) × (i < length xs)
set_item_ok xs i v h = elim (Option-cases (get_elem? xs i)) [
  | inl e ↦ ground arith
  | inr (a, e) ↦ (ground arith, get_elem?-lt xs i a e)
]

pub Result-cases {ℓ} :
    {A : Type ℓ} (r : Result A) → ((a : A) × (r ≡ ok a)) ⊎ ((x : Exc) × (r ≡ err x))
Result-cases (ok a) = inl (a, refl)
Result-cases (err e) = inr (e, refl)

pub ok-injective {ℓ} : {A : Type ℓ} {a b : A} → ok a ≡ ok b → a ≡ b
ok-injective h = cc

pub err-ne-ok {ℓ κ} : {A : Type ℓ} {B : Type κ} {x : Exc} {a : A} → err x ≡ ok a → B
err-ne-ok h = cc

-- `[f(x) for x in xs]`, where a call may raise.
abbrev pub each {ℓ κ} : {A : Type ℓ} {B : Type κ} → (A → Result B) → List A → Result (List B)
each f [] = ok []
each f (x ∷ xs) = f x >>= λ y. each f xs >>= λ ys. ok (y ∷ ys)
