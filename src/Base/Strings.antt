-- ===== src/Base/Strings.antt =====
-- Python's string methods that the parsers use, on texts.
use package.cluster_genesis.Base.Tests.{nat_beq, leb, if◌then◌else◌}
use package.cluster_genesis.Base.Texts.{Text}
use package.cluster_genesis.Base.Lists.{length}
use package.cluster_genesis.Base.Results.{Result, ok, err, value_error}
use Prim.Native.Nat.{ℕ, zero, suc, ◌+◌, ◌-◌, ◌*◌}
use mathlib.Core.Bool.{Bool, true, false, ◌&&◌, ◌||◌}
use mathlib.Core.List.{List, [], ◌∷◌, ◌++◌}
use mathlib.Core.Option.{Option, none, some}

-- The text behind a prefix, if it has the prefix.
unfoldable pub strip_prefix : Text → Text → Option Text
strip_prefix [] t = some t
strip_prefix (c ∷ p) [] = none
strip_prefix (c ∷ p) (d ∷ t) = let rest = strip_prefix p t in if nat_beq c d then rest else none

-- `t.startswith(p)`
unfoldable pub starts_with : Text → Text → Bool
unfolding strip_prefix
starts_with p t = elim (strip_prefix p t) [ none ↦ false | some _ ↦ true ]

-- `p in t`
unfoldable pub occurs : Text → Text → Bool
unfolding starts_with
occurs p [] = starts_with p []
occurs p (c ∷ t) = starts_with p (c ∷ t) || occurs p t

unfoldable pub on_head : ℕ → List Text → List Text
on_head c [] = (c ∷ []) ∷ []
on_head c (l ∷ ls) = (c ∷ l) ∷ ls

-- `t.split(sep)` for a separator of one character.
unfoldable pub split : ℕ → Text → List Text
unfolding on_head
split sep [] = [] ∷ []
split sep (c ∷ t) = let rest = split sep t in if nat_beq c sep then [] ∷ rest else on_head c rest

-- `t.split(sep)` for a longer separator; each round takes at least one character off.
split_from : ℕ → Text → Text → List Text
unfolding on_head strip_prefix
split_from zero sep t = t ∷ []
split_from (suc fuel) sep [] = [] ∷ []
split_from (suc fuel) sep (c ∷ t) = elim (strip_prefix sep (c ∷ t)) [
  | none ↦ on_head c (split_from fuel sep t)
  | some rest ↦ [] ∷ split_from fuel sep rest
]

unfoldable pub split_on : Text → Text → List Text
unfolding split_from
split_on sep t = split_from (suc (length t)) sep t

is_break : ℕ → Bool
is_break c =
    (leb 10 c && leb c 13)
    || ((leb 28 c && leb c 30) || (nat_beq c 133 || (nat_beq c 8232 || nat_beq c 8233)))

-- The lines of a text; `cr` says that a carriage return ended the line before.
lines_from : Bool → Text → List Text
unfolding is_break on_head
lines_from cr [] = [] ∷ []
lines_from cr (c ∷ t) = elim (cr && nat_beq c 10) [
  | true ↦ lines_from false t
  | false ↦ elim (is_break c) [
    | true ↦ [] ∷ lines_from (nat_beq c 13) t
    | false ↦ on_head c (lines_from false t)
  ]
]

drop_last_empty : List Text → List Text
drop_last_empty [] = []
drop_last_empty ([] ∷ []) = []
drop_last_empty (l ∷ ls) = l ∷ drop_last_empty ls

-- `t.splitlines()`
unfoldable pub splitlines : Text → List Text
unfolding lines_from drop_last_empty
splitlines t = drop_last_empty (lines_from false t)

-- `sep.join(ts)`
unfoldable pub join : Text → List Text → Text
join sep [] = []
join sep (t ∷ []) = t
join sep (t ∷ u ∷ us) = t ++ sep ++ join sep (u ∷ us)

-- `t.strip(c)`
unfoldable pub strip_left : ℕ → Text → Text
strip_left c [] = []
strip_left c (d ∷ t) = let rest = strip_left c t in if nat_beq c d then rest else d ∷ t

unfoldable pub strip_right : ℕ → Text → Text
strip_right c [] = []
strip_right c (d ∷ t) = elim (strip_right c t) [
  | [] ↦ if nat_beq c d then [] else d ∷ []
  | e ∷ u ↦ d ∷ e ∷ u
]

unfoldable pub strip : ℕ → Text → Text
unfolding strip_left strip_right
strip c t = strip_right c (strip_left c t)

abbrev pub is_digit : ℕ → Bool
is_digit c = leb 48 c && leb c 57

-- The number that decimal digits stand for, behind the value of the digits before them.
unfoldable pub digits : ℕ → Text → Option ℕ
digits n [] = some n
digits n (c ∷ t) = let rest = digits (n * 10 + (c - 48)) t in if is_digit c then rest else none

-- `int(t)` of a text of decimal digits; any other text is a ValueError. (A sign, blanks around
-- the number and underscores, which Python takes too, do not occur in the modelled texts.)
unfoldable pub int_of : Text → Result ℕ
unfolding digits
int_of [] = err value_error
int_of (c ∷ t) = elim (digits 0 (c ∷ t)) [ none ↦ err value_error | some n ↦ ok n ]
