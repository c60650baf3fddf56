-- ===== src/Base/Regex.antt =====
-- Python's `re` on texts: a backtracking matcher for the patterns that the parsers use.
use package.cluster_genesis.Base.Tests.{nat_eq, nat_beq, leb}
use package.cluster_genesis.Base.Dicts.{Dict, insert, lookup}
use package.cluster_genesis.Base.Texts.{Text, codes}
use package.cluster_genesis.Base.Lists.{length}
use mathlib.Core.Path.{◌≡◌, refl}
use Prim.Native.Nat.{ℕ, zero, suc, ◌-◌}
use mathlib.Core.Bool.{Bool, true, false, ◌&&◌, ◌||◌}
use mathlib.Core.List.{List, [], ◌∷◌}
use mathlib.Core.Option.{Option, none, some}

-- A pattern: a class of characters, and the operators. `group n r` captures what `r` matches.
pub data Regex : Type 0 where
  nothing : Regex
  chars : (ℕ → Bool) → Regex
  seq alt : Regex → Regex → Regex
  star : Regex → Regex
  group : ℕ → Regex → Regex

-- What `\d`, `\w` and `\s` match among the ASCII characters.
abbrev pub digit : Regex
digit = chars (λ c. leb 48 c && leb c 57)

abbrev pub word : Regex
word = chars (λ c.
    (leb 48 c && leb c 57) || ((leb 65 c && leb c 90) || (nat_beq c 95 || (leb 97 c && leb c 122))))

abbrev pub space : Regex
space = chars (λ c. (leb 9 c && leb c 13) || ((leb 28 c && leb c 31) || nat_beq c 32))

abbrev pub lit : Text → Regex
lit [] = nothing
lit (c ∷ t) = seq (chars (nat_beq c)) (lit t)

-- `r+`
abbrev pub plus : Regex → Regex
plus r = seq r (star r)

or_else {ℓ} : {A : Type ℓ} → Option A → Option A → Option A
or_else o p = elim o [ none ↦ p | some a ↦ some a ]

take {ℓ} : {A : Type ℓ} → ℕ → List A → List A
take zero xs = []
take (suc n) [] = []
take (suc n) (x ∷ xs) = x ∷ take n xs

abbrev pub Groups : Type 0
Groups = Dict ℕ Text

-- A match: where it starts and ends, and the captured groups.
pub record Match : Type 0 where
  pub start : ℕ
  pub rest : Text
  pub groups : Groups

-- The first match in the order in which `re` tries: a repetition takes as much as it can. A round
-- of a repetition takes at least a character, so that the length of the text is fuel enough.
match_here :
    ℕ → Regex → Text → Groups → (Text → Groups → Option (Text × Groups)) → Option (Text × Groups)
unfolding or_else take
match_here fuel nothing t g k = k t g
match_here fuel (chars p) [] g k = none
match_here fuel (chars p) (c ∷ t) g k = elim (p c) [ true ↦ k t g | false ↦ none ]
match_here fuel (seq r s) t g k = match_here fuel r t g (λ u g'. match_here fuel s u g' k)
match_here fuel (alt r s) t g k = elim (match_here fuel r t g k) [
  | none ↦ match_here fuel s t g k
  | some m ↦ some m
]
match_here zero (star r) t g k = k t g
match_here (suc fuel) (star r) t g k =
    elim (match_here (suc fuel) r t g (λ u g'. match_here fuel (star r) u g' k)) [
      | none ↦ k t g
      | some m ↦ some m
    ]
match_here fuel (group n r) t g k =
    match_here fuel r t g (λ u g'. k u (insert n (take (length t - length u) t) g'))

try_at : ℕ → Regex → Text → Option Match
unfolding match_here
try_at i r t = elim (match_here (length t) r t [] (λ u g. some (u, g))) [
  | some m ↦ let (u, g) = m in some (record { start = i; rest = u; groups = g })
  | none ↦ none
]

search_from : ℕ → Regex → Text → Option Match
unfolding try_at
search_from i r [] = try_at i r []
search_from i r (c ∷ t) = elim (try_at i r (c ∷ t)) [
  | some m ↦ some m
  | none ↦ search_from (suc i) r t
]

-- `re.search(r, t)`, and what its groups hold.
unfoldable pub search : Regex → Text → Option Match
unfolding search_from
search r t = search_from 0 r t

group_of : Groups → ℕ → Text
group_of g n = elim (lookup n g) [ none ↦ [] | some t ↦ t ]

-- The text of group `n`, which the patterns always capture.
unfoldable pub group_at : Match → ℕ → Text
unfolding group_of
group_at m n = group_of m.groups n

findall_from : ℕ → Regex → ℕ → Text → List Text
unfolding search group_at
findall_from zero r n t = []
findall_from (suc fuel) r n t = elim (search r t) [
  | none ↦ []
  | some m ↦ group_at m n ∷ findall_from fuel r n m.rest
]

-- `re.findall(r, t)` for a pattern with the group `n` that matches at least one character.
unfoldable pub findall : Regex → ℕ → Text → List Text
unfolding findall_from
findall r n t = findall_from (suc (length t)) r n t

vlans_found :
    findall
      (seq (lit (codes "Vlan")) (group 1 (plus digit)))
      1
      (codes "Vlan1 up Vlan22 Vlan x Vlan3")
    ≡ codes "1" ∷ codes "22" ∷ codes "3" ∷ []
unfolding findall
vlans_found = refl
