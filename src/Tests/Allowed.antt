-- ===== src/Tests/Allowed.antt =====
-- The theorems on the allowed VLANs of a port at concrete inputs.
use cluster_genesis.Base.{
  ◌≡◌, refl, ◌≢◌, some, [], ◌∷◌, map, nat_eq, option_eq, Text, codes, text_beq, text_eq, Dict,
  lookup, value_error, ok, err,
}
use cluster_genesis.Base.Value.{show_digits, show_nat, port_eq}
use cluster_genesis.Base.Strings.{join}
use cluster_genesis.Switch.Allowed.{vlans_text, allowed_in, several, single}
use cluster_genesis.Switch.AllowedNumbers.{allowed_in_correct}
use cluster_genesis.Switch.AllowedRanges.{allowed_in_range_error}
use cluster_genesis.Switch.Ranges.{range_text, all_covered, only, from_to}
use cluster_genesis.Switch.Answers.{PortInfo}

abbrev port_table_entry : PortInfo
port_table_entry = record { port_mode = codes "trunk"; nvlan = codes "1"; avlans = codes "1,4-6" }

abbrev table : Dict Text PortInfo
table = (codes "1/5", port_table_entry) ∷ []

table_entry : lookup (codes "1/5") table ≡ some port_table_entry
unfolding text_beq
table_entry = refl

entry_ranges :
    port_table_entry.avlans ≡ join (codes ",") (map range_text (only 1 ∷ from_to 4 6 ∷ []))
unfolding join range_text show_nat show_digits
entry_ranges = refl

other_range : range_text (from_to 4 6) ≢ range_text (only 1)
unfolding range_text show_nat show_digits
other_range h = cc

allowed_in_correct_example :
    allowed_in (vlans_text (several (5 ∷ 1 ∷ 7 ∷ []))) (codes "1/5") (some table)
    ≡ ok (some (all_covered (5 ∷ 1 ∷ 7 ∷ []) (only 1 ∷ from_to 4 6 ∷ [])))
allowed_in_correct_example =
    allowed_in_correct 5 (1 ∷ 7 ∷ []) (only 1) (from_to 4 6 ∷ []) (codes "1/5") table
      port_table_entry table_entry entry_ranges

allowed_in_range_error_example :
    allowed_in (vlans_text (single (range_text (from_to 4 6)))) (codes "1/5") (some table)
    ≡ err value_error
allowed_in_range_error_example =
    allowed_in_range_error 4 6 (only 1) (from_to 4 6 ∷ []) (codes "1/5") table port_table_entry
      other_range table_entry entry_ranges
