-- ===== src/Switch/AllowedRanges.antt =====
-- `is_vlan_allowed_for_port` of scripts/python/lib/switch_common.py for a range of VLANs.
use cluster_genesis.Base.{
  ℕ, ◌≡◌, refl, sym, ap, ◌∙◌, ◌≢◌, inl, inr, true, false, some, List, [], ◌∷◌, ◌++◌, map, arith,
  nat_eq, ◌==◌, option_eq, Bool-cases, Text, codes, text_beq_iff, text_eq, Dict, lookup,
  value_error, err,
}
use cluster_genesis.Base.Value.{show_nat, port_eq}
use cluster_genesis.Base.Value.Decimal.{int_of-dash}
use cluster_genesis.Base.Strings.{strip_prefix, starts_with, occurs, strip, split, join}
use cluster_genesis.Switch.Allowed.{
  in_range, is_allowed, vlans_text, all_allowed, allowed_in, single,
}
use cluster_genesis.Switch.Ranges.{Range, range_text, avoids-range_text, range_text_cons, from_to}
use cluster_genesis.Base.Value.Splits.{split-avoids, strip-avoids}
use cluster_genesis.Switch.Answers.{PortInfo}
use cluster_genesis.Switch.AllowedNumbers.{listed_ranges}

occurs-append : (t u : Text) → occurs (codes "-") (t ++ 45 ∷ u) ≡ true
unfolding occurs starts_with strip_prefix
occurs-append [] u = refl
occurs-append (c ∷ t) u = ground (arith, occurs-append t u)

-- The step of the loop that reads a range which is not the listed one as a number.
is_allowed_unread :
    (vlan range : Text) (ranges : List Text) (c d : ℕ) (u w : Text)
    → vlan ≡ c ∷ u
    → strip 32 range ≡ d ∷ w
    → (c ∷ u == d ∷ w) ≡ false
    → in_range (c ∷ u) (d ∷ w) ≡ err value_error
    → is_allowed vlan (range ∷ ranges) ≡ err value_error
unfolding is_allowed
is_allowed_unread vlan range ranges c d u w v s n i =
    elim (Bool-cases (occurs (codes "-") (c ∷ u))) [
      | inl o ↦ rw (v, s, o, n, i, is_allowed) refl
      | inr o ↦ rw (v, s, o, i, is_allowed) refl
    ]

in_range-dash :
    (low high : ℕ) (t : Text) → in_range (show_nat low ++ 45 ∷ show_nat high) t ≡ err value_error
unfolding in_range
in_range-dash low high t = rw (int_of-dash low (show_nat high), in_range) refl

is_allowed-dash :
    (low high : ℕ) (r : Range) (rs : List Range)
    → range_text (from_to low high) ≢ range_text r
    → is_allowed (range_text (from_to low high)) (map range_text (r ∷ rs)) ≡ err value_error
unfolding range_text
is_allowed-dash low high r rs other =
    let (c, u, cs) = range_text_cons (from_to low high) in
    let (d, w, ds) = range_text_cons r in
    let stripped : strip 32 (range_text r) ≡ d ∷ w =
      strip-avoids 32 (range_text r) (avoids-range_text 32 r (omega arith)) ∙ ds in
    let unread : in_range (c ∷ u) (d ∷ w) ≡ err value_error =
      ap (λ t. in_range t (d ∷ w)) (sym cs) ∙ in_range-dash low high (d ∷ w) in
    let differ : (c ∷ u == d ∷ w) ≡ false = elim (Bool-cases (c ∷ u == d ∷ w)) [
      | inl e ↦ absurd (other (cs ∙ (text_beq_iff (c ∷ u) (d ∷ w)).0 e ∙ sym ds))
      | inr e ↦ e
    ] in
    is_allowed_unread _ _ (map range_text rs) c d u w cs stripped differ unread

raised :
    (vlan : Text) (vlans ranges : List Text)
    → is_allowed vlan ranges ≡ err value_error
    → all_allowed (vlan ∷ vlans) ranges ≡ err value_error
unfolding all_allowed
raised vlan vlans ranges h = rw (h, all_allowed) refl

error_for :
    (vlans port : Text) (ports : Dict Text PortInfo) (info : PortInfo)
    → lookup port ports ≡ some info
    → all_allowed (split 44 vlans) (split 44 info.avlans) ≡ err value_error
    → allowed_in vlans port (some ports) ≡ err value_error
unfolding allowed_in
error_for vlans port ports info at h = rw (at, h, allowed_in) refl

-- For a text with a first and a last VLAN, a form that the method's description allows, and a port
-- whose entry in the switch's table lists one or more allowed VLANs or ranges of which the first
-- is another text, the method raises a ValueError.
pub allowed_in_range_error :
    (low high : ℕ) (r : Range) (rs : List Range) (port : Text) (ports : Dict Text PortInfo)
    (info : PortInfo)
    → range_text (from_to low high) ≢ range_text r
    → lookup port ports ≡ some info
    → info.avlans ≡ join (codes ",") (map range_text (r ∷ rs))
    → allowed_in (vlans_text (single (range_text (from_to low high)))) port (some ports)
      ≡ err value_error
unfolding vlans_text
allowed_in_range_error low high r rs port ports info other at listed =
    let vlans = range_text (from_to low high) in
    error_for vlans port ports info at (
      ap (all_allowed (split 44 vlans)) (ap (split 44) listed ∙ listed_ranges r rs)
      ∙ ap (λ l. all_allowed l (map range_text (r ∷ rs)))
          (split-avoids 44 vlans (avoids-range_text 44 (from_to low high) (omega arith)))
      ∙ raised vlans [] _ (is_allowed-dash low high r rs other))
