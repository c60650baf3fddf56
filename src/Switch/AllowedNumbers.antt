-- ===== src/Switch/AllowedNumbers.antt =====
-- `is_vlan_allowed_for_port` of scripts/python/lib/switch_common.py for lists of numbers.
use cluster_genesis.Base.{
  ℕ, ◌≡◌, refl, sym, ap, ◌∙◌, Bool, true, false, ◌||◌, some, List, [], ◌∷◌, map, arith,
  if◌then◌else◌, nat_eq, option_eq, All, Text, codes, text_eq, Dict, lookup, Result, ok,
}
use cluster_genesis.Base.Value.{show_nat, port_eq}
use cluster_genesis.Switch.Ranges.{
  Range, range_text, covers, covered, all_covered, in_range-range_text, avoids-range_text,
  range_text_cons, is_allowed_step,
}
use cluster_genesis.Base.Value.Decimal.{show_nat_cons, avoids, avoids-show_nat}
use cluster_genesis.Base.Value.Splits.{split-join, strip-avoids, occurs-avoids}
use cluster_genesis.Base.Strings.{occurs, split, join, strip}
use cluster_genesis.Switch.Allowed.{
  vlans_text, in_range, is_allowed, all_allowed, allowed_in, several,
}
use cluster_genesis.Switch.Answers.{PortInfo}

either :
    (b c : Bool) (rest : Result Bool) → rest ≡ ok c → (if b then ok true else rest) ≡ ok (b || c)
either true c rest h = refl
either false c rest h = h

is_allowed_numbers :
    (v : ℕ) (rs : List Range) → is_allowed (show_nat v) (map range_text rs) ≡ ok (covered v rs)
unfolding is_allowed covered
is_allowed_numbers v [] = refl
is_allowed_numbers v (r ∷ rs) =
    let (c, u, cs) = show_nat_cons v in
    let (d, w, ds) = range_text_cons r in
    let stripped : strip 32 (range_text r) ≡ d ∷ w =
      strip-avoids 32 (range_text r) (avoids-range_text 32 r (omega arith)) ∙ ds in
    let plain : occurs (codes "-") (c ∷ u) ≡ false =
      ap (occurs (codes "-")) (sym cs)
      ∙ occurs-avoids 45 (show_nat v) (avoids-show_nat 45 v (omega arith)) in
    let inside : in_range (c ∷ u) (d ∷ w) ≡ ok (covers v r) =
      ap (λ t. in_range t (d ∷ w)) (sym cs)
      ∙ ap (in_range (show_nat v)) (sym ds)
      ∙ in_range-range_text v r in
    is_allowed_step (show_nat v) (range_text r) (map range_text rs) c d u w (covers v r) cs stripped
      plain inside
    ∙ either (covers v r) (covered v rs) _ (is_allowed_numbers v rs)

all_allowed_numbers :
    (vs : List ℕ) (rs : List Range)
    → all_allowed (map show_nat vs) (map range_text rs) ≡ ok (all_covered vs rs)
unfolding all_allowed all_covered
all_allowed_numbers [] rs = refl
all_allowed_numbers (v ∷ vs) rs = rw (is_allowed_numbers v rs, all_allowed_numbers vs rs) refl

avoids-number_texts : (vs : List ℕ) → All (λ t. avoids 44 t ≡ true) (map show_nat vs)
avoids-number_texts [] = tt
avoids-number_texts (v ∷ vs) = (avoids-show_nat 44 v (omega arith), avoids-number_texts vs)

avoids-range_texts : (rs : List Range) → All (λ t. avoids 44 t ≡ true) (map range_text rs)
avoids-range_texts [] = tt
avoids-range_texts (r ∷ rs) = (avoids-range_text 44 r (omega arith), avoids-range_texts rs)

-- The texts that the lists are printed as are split into the same parts again.
requested : (v : ℕ) (vs : List ℕ) → split 44 (vlans_text (several (v ∷ vs))) ≡ map show_nat (v ∷ vs)
unfolding vlans_text
requested v vs =
    split-join 44 (show_nat v) (map show_nat vs) (avoids-show_nat 44 v (omega arith))
      (avoids-number_texts vs)

pub listed_ranges :
    (r : Range) (rs : List Range)
    → split 44 (join (codes ",") (map range_text (r ∷ rs))) ≡ map range_text (r ∷ rs)
listed_ranges r rs =
    split-join 44 (range_text r) (map range_text rs) (avoids-range_text 44 r (omega arith))
      (avoids-range_texts rs)

answer_for :
    (vlans port : Text) (ports : Dict Text PortInfo) (info : PortInfo) (b : Bool)
    → lookup port ports ≡ some info
    → all_allowed (split 44 vlans) (split 44 info.avlans) ≡ ok b
    → allowed_in vlans port (some ports) ≡ ok (some b)
unfolding allowed_in
answer_for vlans port ports info b at h = rw (at, h, allowed_in) refl

-- For a list of one or more VLAN numbers and a port whose entry in the switch's table lists one or
-- more allowed VLANs or ranges, the answer is whether every number of the list lies in one of the
-- ranges; no text fails to be read.
pub allowed_in_correct :
    (v : ℕ) (vs : List ℕ) (r : Range) (rs : List Range) (port : Text) (ports : Dict Text PortInfo)
    (info : PortInfo)
    → lookup port ports ≡ some info
    → info.avlans ≡ join (codes ",") (map range_text (r ∷ rs))
    → allowed_in (vlans_text (several (v ∷ vs))) port (some ports)
      ≡ ok (some (all_covered (v ∷ vs) (r ∷ rs)))
allowed_in_correct v vs r rs port ports info at listed =
    answer_for (vlans_text (several (v ∷ vs))) port ports info _ at (
      ap (all_allowed _) (ap (split 44) listed ∙ listed_ranges r rs)
      ∙ ap (λ l. all_allowed l (map range_text (r ∷ rs))) (requested v vs)
      ∙ all_allowed_numbers (v ∷ vs) (r ∷ rs))
