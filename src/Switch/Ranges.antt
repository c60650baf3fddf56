-- ===== src/Switch/Ranges.antt =====
-- The check of the allowed VLANs of scripts/python/lib/switch_common.py on numbers and ranges.
use cluster_genesis.Base.{
  ℕ, ◌<◌, ◌≡◌, refl, ap, ◌∙◌, Bool, true, false, ◌&&◌, ◌||◌, List, [], ◌∷◌, ◌++◌, arith, leb,
  if◌then◌else◌, nat_eq, option_eq, Text, codes, text_eq, ok,
}
use cluster_genesis.Base.Value.{show_nat, port_eq}
use cluster_genesis.Base.Strings.{split, occurs, strip, int_of}
use cluster_genesis.Base.Value.Decimal.{
  avoids, int_of-show_nat, avoids-show_nat, show_nat_cons, avoids-append,
}
use cluster_genesis.Base.Value.Splits.{split-avoids, split-append}
use cluster_genesis.Switch.Allowed.{first_part, last_of, last_part, in_range, is_allowed, up_to}

-- A part of a switch's list of allowed VLANs: a VLAN, or a first and a last one.
pub data Range : Type 0 where
  only : ℕ → Range
  from_to : ℕ → ℕ → Range

unfoldable pub range_text : Range → Text
range_text (only n) = show_nat n
range_text (from_to low high) = show_nat low ++ 45 ∷ show_nat high

unfoldable pub covers : ℕ → Range → Bool
covers v (only n) = leb n v && leb v n
covers v (from_to low high) = leb low v && leb v high

unfoldable pub covered : ℕ → List Range → Bool
unfolding covers
covered v [] = false
covered v (r ∷ rs) = covers v r || covered v rs

unfoldable pub all_covered : List ℕ → List Range → Bool
unfolding covered
all_covered [] rs = true
all_covered (v ∷ vs) rs = covered v rs && all_covered vs rs

dashed : (c : ℕ) (t : Text) → c < 45 → avoids c t ≡ true → avoids c (45 ∷ t) ≡ true
unfolding avoids
dashed c t l h = ground arith

first_part-split : (t p : Text) (ps : List Text) → split 45 t ≡ p ∷ ps → first_part t ≡ p
unfolding first_part
first_part-split t p ps h = rw (h, first_part) refl

last_part-split : (t : Text) (ps : List Text) → split 45 t ≡ ps → last_part t ≡ last_of ps
unfolding last_part
last_part-split t ps h = ap last_of h

split_only : (n : ℕ) → split 45 (show_nat n) ≡ show_nat n ∷ []
split_only n = split-avoids 45 (show_nat n) (avoids-show_nat 45 n (omega arith))

split_from_to :
    (low high : ℕ)
    → split 45 (show_nat low ++ 45 ∷ show_nat high) ≡ show_nat low ∷ show_nat high ∷ []
split_from_to low high =
    split-append 45 (show_nat low) (show_nat high) (avoids-show_nat 45 low (omega arith))
    ∙ ap (λ l. show_nat low ∷ l) (split_only high)

up_to_high :
    (v high : ℕ) (t : Text) (b : Bool)
    → int_of (last_part t) ≡ ok high
    → up_to v t b ≡ ok (b && leb v high)
unfolding up_to
up_to_high v high t false l = refl
up_to_high v high t true l = rw (l, up_to) refl

in_range_ints :
    (v low high : ℕ) (vlan t : Text)
    → int_of vlan ≡ ok v
    → int_of (first_part t) ≡ ok low
    → int_of (last_part t) ≡ ok high
    → in_range vlan t ≡ ok (leb low v && leb v high)
unfolding in_range
in_range_ints v low high vlan t i f l = rw (i, f, in_range) (up_to_high v high t (leb low v) l)

in_range_split :
    (v low high : ℕ) (t : Text) (ps : List Text)
    → split 45 t ≡ show_nat low ∷ ps
    → last_of (show_nat low ∷ ps) ≡ show_nat high
    → in_range (show_nat v) t ≡ ok (leb low v && leb v high)
in_range_split v low high t ps h l =
    in_range_ints v low high (show_nat v) t (int_of-show_nat v)
      (ap int_of (first_part-split t (show_nat low) ps h) ∙ int_of-show_nat low)
      (ap int_of (last_part-split t _ h ∙ l) ∙ int_of-show_nat high)

pub in_range-range_text :
    (v : ℕ) (r : Range) → in_range (show_nat v) (range_text r) ≡ ok (covers v r)
unfolding range_text covers last_of
in_range-range_text v (only n) = in_range_split v n n _ [] (split_only n) refl
in_range-range_text v (from_to low high) =
    in_range_split v low high _ (show_nat high ∷ []) (split_from_to low high) refl

pub avoids-range_text : (c : ℕ) (r : Range) → c < 45 → avoids c (range_text r) ≡ true
unfolding range_text avoids
avoids-range_text c (only n) l = avoids-show_nat c n (omega arith)
avoids-range_text c (from_to low high) l =
    avoids-append c (show_nat low) (45 ∷ show_nat high) (avoids-show_nat c low (omega arith))
      (dashed c (show_nat high) l (avoids-show_nat c high (omega arith)))

pub range_text_cons : (r : Range) → (d : ℕ) × (t : Text) × (range_text r ≡ d ∷ t)
unfolding range_text
range_text_cons (only n) = show_nat_cons n
range_text_cons (from_to low high) =
    let (d, t, e) = show_nat_cons low in
    (d, t ++ 45 ∷ show_nat high, ap (λ u. u ++ 45 ∷ show_nat high) e)

-- One step of the loop over the ranges.
pub is_allowed_step :
    (vlan range : Text) (ranges : List Text) (c d : ℕ) (u w : Text) (b : Bool)
    → vlan ≡ c ∷ u
    → strip 32 range ≡ d ∷ w
    → occurs (codes "-") (c ∷ u) ≡ false
    → in_range (c ∷ u) (d ∷ w) ≡ ok b
    → is_allowed vlan (range ∷ ranges) ≡ (if b then ok true else is_allowed vlan ranges)
unfolding is_allowed
is_allowed_step vlan range ranges c d u w true v s o i = rw (v, s, o, i, is_allowed) refl
is_allowed_step vlan range ranges c d u w false v s o i = rw (v, s, o, i, is_allowed) refl
