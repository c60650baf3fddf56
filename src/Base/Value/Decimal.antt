-- ===== src/Base/Value/Decimal.antt =====
-- The decimal print of a number, read back by `int`.
use package.cluster_genesis.Base.Tests.{ltb, nat_beq, Bool-cases}
use package.cluster_genesis.Base.Texts.{Text}
use package.cluster_genesis.Base.Value.{show_digits, show_nat}
use package.cluster_genesis.Base.Results.{ok, err, value_error}
use package.cluster_genesis.Base.Strings.{digits, int_of, is_digit}
use Prim.Native.Nat.{ℕ, zero, suc, ◌+◌, ◌-◌, ◌*◌, ◌/◌, ◌%◌, ◌<◌, ◌≤◌}
use mathlib.Core.Path.{◌≡◌, refl, sym, ap, ◌∙◌}
use mathlib.Core.Logic.{inl, inr}
use mathlib.Core.Bool.{Bool, true, false, ◌&&◌, not}
use mathlib.Core.List.{[], ◌∷◌, ◌++◌}
use mathlib.Core.Option.{some, none}
use native.Mathlib.Omega.{arith}

digits_cons : (n d : ℕ) (t : Text) → d < 10 → digits n ((48 + d) ∷ t) ≡ digits (n * 10 + d) t
unfolding digits
digits_cons n d t l =
    let same : (48 + d) - 48 ≡ d = omega arith in
    let is : is_digit (48 + d) ≡ true = ground arith in rw (is, same) refl

ltb-true : (n : ℕ) → ltb n 10 ≡ true → n < 10
ltb-true n e = ground arith

zero_n : (n : ℕ) → 0 * 10 + n ≡ n
zero_n n = omega arith

ltb-false : (n : ℕ) → ltb n 10 ≡ false → 10 ≤ n
ltb-false n e = ground arith

small : (fuel n : ℕ) (out : Text) → ltb n 10 ≡ true → show_digits (suc fuel) n out ≡ (48 + n) ∷ out
unfolding show_digits
small fuel n out e = rw (e, show_digits) refl

large :
    (fuel n : ℕ) (out : Text)
    → ltb n 10 ≡ false
    → show_digits (suc fuel) n out ≡ show_digits fuel (n / 10) ((48 + n % 10) ∷ out)
unfolding show_digits
large fuel n out e = rw (e, show_digits) refl

digits-show_digits :
    (fuel n : ℕ) (out : Text) → n < fuel → digits 0 (show_digits fuel n out) ≡ digits n out
unfolding show_digits
digits-show_digits zero n out l = elim l [ ]
digits-show_digits (suc fuel) n out l = elim (Bool-cases (ltb n 10)) [
  | inl e ↦
      rw (small fuel n out e)
        (digits_cons 0 n out (ltb-true n e) ∙ ap (λ m. digits m out) (zero_n n))
  | inr e ↦
      let small : n / 10 < fuel = omega (arith, (ltb-false n e)) in
      let whole : n / 10 * 10 + n % 10 ≡ n = omega arith in
      rw (large fuel n out e) (
        digits-show_digits fuel (n / 10) _ small
        ∙ digits_cons (n / 10) (n % 10) out (omega arith)
        ∙ ap (λ m. digits m out) whole)
]

show_digits_cons :
    (fuel n c : ℕ) (out : Text) → (d : ℕ) × (t : Text) × (show_digits fuel n (c ∷ out) ≡ d ∷ t)
unfolding show_digits
show_digits_cons zero n c out = (c, out, refl)
show_digits_cons (suc fuel) n c out = elim (Bool-cases (ltb n 10)) [
  | inl e ↦ rw (small fuel n (c ∷ out) e) (48 + n, c ∷ out, refl)
  | inr e ↦ rw (large fuel n (c ∷ out) e) (show_digits_cons fuel (n / 10) (48 + n % 10) (c ∷ out))
]

-- The decimal print starts with a character.
pub show_nat_cons : (n : ℕ) → (d : ℕ) × (t : Text) × (show_nat n ≡ d ∷ t)
unfolding show_nat show_digits
show_nat_cons n = elim (Bool-cases (ltb n 10)) [
  | inl e ↦ (48 + n, [], small n n [] e)
  | inr e ↦
      let (d, t, at) = show_digits_cons n (n / 10) (48 + n % 10) [] in (d, t, large n n [] e ∙ at)
]

digits-show_nat : (n : ℕ) → digits 0 (show_nat n) ≡ some n
unfolding show_nat digits
digits-show_nat n = digits-show_digits (suc n) n [] (omega arith)

int_of-digits : (c : ℕ) (t : Text) (n : ℕ) → digits 0 (c ∷ t) ≡ some n → int_of (c ∷ t) ≡ ok n
unfolding int_of
int_of-digits c t n h = rw (h, int_of) refl

-- `int(str(n)) == n`
pub int_of-show_nat : (n : ℕ) → int_of (show_nat n) ≡ ok n
unfolding int_of
int_of-show_nat n =
    let (d, t, e) = show_nat_cons n in
    ap int_of e ∙ int_of-digits d t n (ap (digits 0) (sym e) ∙ digits-show_nat n)

-- No digit is the character `c`.
unfoldable pub avoids : ℕ → Text → Bool
avoids c [] = true
avoids c (d ∷ t) = not (nat_beq d c) && avoids c t

pub avoids-append :
    (c : ℕ) (t u : Text) → avoids c t ≡ true → avoids c u ≡ true → avoids c (t ++ u) ≡ true
unfolding avoids
avoids-append c [] u h k = k
avoids-append c (d ∷ t) u h k = ground (arith, avoids-append c t u)

avoids-show_digits :
    (c fuel n : ℕ) (out : Text)
    → c < 48
    → avoids c out ≡ true
    → avoids c (show_digits fuel n out) ≡ true
unfolding show_digits avoids
avoids-show_digits c zero n out l h = h
avoids-show_digits c (suc fuel) n out l h =
    let last : avoids c ((48 + n) ∷ out) ≡ true = ground arith in
    let next : avoids c ((48 + n % 10) ∷ out) ≡ true = ground arith in
    elim (Bool-cases (ltb n 10)) [
      | inl e ↦ rw (small fuel n out e) last
      | inr e ↦ rw (large fuel n out e) (avoids-show_digits c fuel (n / 10) _ l next)
    ]

-- A decimal print has no character below the digits.
pub avoids-show_nat : (c n : ℕ) → c < 48 → avoids c (show_nat n) ≡ true
unfolding show_nat avoids
avoids-show_nat c n l = avoids-show_digits c (suc n) n [] l refl

digits-dash : (n : ℕ) (t u : Text) → digits n (t ++ 45 ∷ u) ≡ none
unfolding digits
digits-dash n [] u = refl
digits-dash n (c ∷ t) u = elim (Bool-cases (is_digit c)) [
  | inl e ↦ rw (e, digits-dash (n * 10 + (c - 48)) t u) refl
  | inr e ↦ rw e refl
]

int_of-none : (c : ℕ) (t : Text) → digits 0 (c ∷ t) ≡ none → int_of (c ∷ t) ≡ err value_error
unfolding int_of
int_of-none c t h = rw (h, int_of) refl

-- `int` of a text with a dash between two numbers is a ValueError.
pub int_of-dash : (n : ℕ) (u : Text) → int_of (show_nat n ++ 45 ∷ u) ≡ err value_error
int_of-dash n u =
    let (d, t, e) = show_nat_cons n in
    let same : show_nat n ++ 45 ∷ u ≡ d ∷ (t ++ 45 ∷ u) = ap (λ s. s ++ 45 ∷ u) e in
    ap int_of same ∙ int_of-none d (t ++ 45 ∷ u) (digits-dash 0 (d ∷ t) u)
