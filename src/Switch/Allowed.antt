-- ===== src/Switch/Allowed.antt =====
-- The VLANs that a trunk port allows: `is_vlan_allowed_for_port` and `allowed_vlans_port` of
-- scripts/python/lib/switch_common.py.
use cluster_genesis.Base.{
  ℕ, Bool, true, false, ◌&&◌, Option, none, some, List, [], ◌∷◌, map, leb, nat_eq, ◌==◌, option_eq,
  Text, codes, text_eq, Dict, lookup, Result, ◌>>=◌, type_error, ok, err,
}
use cluster_genesis.Base.Value.{show_nat, port_eq}
use cluster_genesis.Base.Strings.{split, occurs, join, strip, int_of}
use cluster_genesis.Switch.Answers.{PortInfo}

-- The argument `vlans`: a list or tuple of numbers, or a text.
pub data VlansArg : Type 0 where
  several : List ℕ → VlansArg
  single : Text → VlansArg

unfoldable pub vlans_text : VlansArg → Text
unfolding show_nat join
vlans_text (several vlans) = join (codes ",") (map show_nat vlans)
vlans_text (single t) = t

-- `t.split('-')[0]` and `t.split('-')[-1]`
unfoldable pub first_part : Text → Text
unfolding split
first_part t = elim (split 45 t) [ [] ↦ [] | p ∷ ps ↦ p ]

unfoldable pub last_of : List Text → Text
last_of [] = []
last_of (p ∷ []) = p
last_of (p ∷ q ∷ ps) = last_of (q ∷ ps)

unfoldable pub last_part : Text → Text
unfolding split last_of
last_part t = last_of (split 45 t)

-- `... and int(vlan) <= int(_vlans.split('-')[-1])`, where the first test had the result given.
unfoldable pub up_to : ℕ → Text → Bool → Result Bool
unfolding int_of last_part
up_to v range false = ok false
up_to v range true = int_of (last_part range) >>= λ high. ok (leb v high)

-- `int(vlan) >= int(_vlans.split('-')[0]) and int(vlan) <= int(_vlans.split('-')[-1])`
unfoldable pub in_range : Text → Text → Result Bool
unfolding int_of first_part up_to
in_range vlan range = do v ← int_of vlan; low ← int_of (first_part range); up_to v range (leb low v)

-- The loop over the ranges for one VLAN.
unfoldable pub is_allowed : Text → List Text → Result Bool
unfolding strip occurs in_range
is_allowed vlan [] = ok false
is_allowed [] (range ∷ ranges) = ok true
is_allowed (c ∷ vlan) (range ∷ ranges) = elim (strip 32 range) [
  | [] ↦ ok false
  | d ∷ range' ↦ elim (occurs (codes "-") (c ∷ vlan) && (c ∷ vlan == d ∷ range')) [
    | true ↦ ok true
    | false ↦ in_range (c ∷ vlan) (d ∷ range') >>= λ found. elim found [
      | true ↦ ok true
      | false ↦ is_allowed (c ∷ vlan) ranges
    ]
  ]
]

unfoldable pub all_allowed : List Text → List Text → Result Bool
unfolding is_allowed
all_allowed [] ranges = ok true
all_allowed (vlan ∷ vlans) ranges = do
  res ← is_allowed vlan ranges
  rest ← all_allowed vlans ranges
  ok (res && rest)

-- The answer from the table of the ports; `None` for a port that the table does not have.
unfoldable pub allowed_in : Text → Text → Option (Dict Text PortInfo) → Result (Option Bool)
unfolding all_allowed split
allowed_in vlans port none = err type_error
allowed_in vlans port (some ports) = elim (lookup port ports) [
  | none ↦ ok none
  | some info ↦ all_allowed (split 44 vlans) (split 44 info.avlans) >>= λ b. ok (some b)
]
