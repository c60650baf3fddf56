-- ===== src/Base/Value/Splits.antt =====
-- Texts that do not have a character, under `split`, `strip` and `in`.
use package.cluster_genesis.Base.Tests.{nat_beq, nat_beq_iff}
use package.cluster_genesis.Base.Texts.{Text}
use package.cluster_genesis.Base.Lists.{All}
use package.cluster_genesis.Base.Strings.{
  split, strip, strip_left, strip_right, occurs, starts_with, strip_prefix, join, on_head,
}
use package.cluster_genesis.Base.Value.Decimal.{avoids}
use Prim.Native.Nat.{ℕ}
use mathlib.Core.Path.{◌≡◌, refl, ap, ◌∙◌}
use mathlib.Core.Bool.{true, false}
use mathlib.Core.List.{List, [], ◌∷◌, ◌++◌, append_assoc}
use native.Mathlib.Omega.{arith}

avoids_head : (c d : ℕ) (t : Text) → avoids c (d ∷ t) ≡ true → nat_beq d c ≡ false
unfolding avoids
avoids_head c d t h = ground arith

avoids_tail : (c d : ℕ) (t : Text) → avoids c (d ∷ t) ≡ true → avoids c t ≡ true
unfolding avoids
avoids_tail c d t h = ground arith

beq_flip : (c d : ℕ) → nat_beq d c ≡ false → nat_beq c d ≡ false
beq_flip c d h = ground arith

pub split-avoids : (c : ℕ) (t : Text) → avoids c t ≡ true → split c t ≡ t ∷ []
unfolding split on_head
split-avoids c [] h = refl
split-avoids c (d ∷ t) h = rw (avoids_head c d t h, split-avoids c t (avoids_tail c d t h)) refl

pub split-append : (c : ℕ) (t u : Text) → avoids c t ≡ true → split c (t ++ c ∷ u) ≡ t ∷ split c u
unfolding split on_head
split-append c [] u h = rw ((nat_beq_iff c c).1 refl) refl
split-append c (d ∷ t) u h = rw (avoids_head c d t h, split-append c t u (avoids_tail c d t h)) refl

-- `sep.join(ts).split(sep) == ts`
pub split-join :
    (c : ℕ) (t : Text) (ts : List Text)
    → avoids c t ≡ true
    → All (λ u. avoids c u ≡ true) ts
    → split c (join (c ∷ []) (t ∷ ts)) ≡ t ∷ ts
unfolding join
split-join c t [] h hs = split-avoids c t h
split-join c t (u ∷ us) h hs =
    ap (split c) (append_assoc t (c ∷ []) (join (c ∷ []) (u ∷ us)))
    ∙ split-append c t (join (c ∷ []) (u ∷ us)) h
    ∙ ap (λ l. t ∷ l) (split-join c u us hs.0 hs.1)

strip_right_keeps :
    (c d e : ℕ) (u t : Text) → strip_right c t ≡ e ∷ u → strip_right c (d ∷ t) ≡ d ∷ e ∷ u
unfolding strip_right
strip_right_keeps c d e u t h = rw (h, strip_right) refl

strip_right-avoids : (c : ℕ) (t : Text) → avoids c t ≡ true → strip_right c t ≡ t
unfolding strip_right
strip_right-avoids c [] h = refl
strip_right-avoids c (d ∷ []) h = rw (beq_flip c d (avoids_head c d [] h)) refl
strip_right-avoids c (d ∷ e ∷ t) h =
    strip_right_keeps c d e t (e ∷ t) (strip_right-avoids c (e ∷ t) (avoids_tail c d (e ∷ t) h))

strip_left-avoids : (c : ℕ) (t : Text) → avoids c t ≡ true → strip_left c t ≡ t
unfolding strip_left
strip_left-avoids c [] h = refl
strip_left-avoids c (d ∷ t) h = rw (beq_flip c d (avoids_head c d t h)) refl

pub strip-avoids : (c : ℕ) (t : Text) → avoids c t ≡ true → strip c t ≡ t
unfolding strip
strip-avoids c t h = ap (strip_right c) (strip_left-avoids c t h) ∙ strip_right-avoids c t h

pub occurs-avoids : (c : ℕ) (t : Text) → avoids c t ≡ true → occurs (c ∷ []) t ≡ false
unfolding occurs starts_with strip_prefix
occurs-avoids c [] h = refl
occurs-avoids c (d ∷ t) h =
    let rest : occurs (c ∷ []) t ≡ false = occurs-avoids c t (avoids_tail c d t h) in
    let head : nat_beq c d ≡ false = beq_flip c d (avoids_head c d t h) in ground arith
