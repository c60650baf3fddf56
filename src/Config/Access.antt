-- ===== src/Config/Access.antt =====
-- Python's reads of a loaded YAML value: attributes, items, `in`, `len`, iteration; and the two
-- helpers of `Config` that all its getters use.
use cluster_genesis.Base.{
  ℕ, zero, suc, ◌+◌, Bool, true, false, Option, none, some, List, [], ◌∷◌, if◌then◌else◌, ◌==◌,
  nat_eq, option_eq, length, Text, text_eq, Result, ◌>>=◌, or_raise, item, each, key_error,
  attribute_error, type_error, ok, err,
}
use cluster_genesis.Base.Value.{
  Value, Values, Fields, port_eq, null, str, list, dict, nil, cons, end, field,
}

abbrev pub of_values : Values → List Value
of_values nil = []
of_values (cons v vs) = v ∷ of_values vs

abbrev pub to_values : List Value → Values
to_values [] = nil
to_values (v ∷ vs) = cons v (to_values vs)

-- The value at a key.
abbrev pub find_field : Fields → Text → Option Value
find_field end k = none
find_field (field k' v fs) k = let rest = find_field fs k in if k' == k then some v else rest

abbrev key_list : Fields → List Value
key_list end = []
key_list (field k v fs) = str k ∷ key_list fs

abbrev char_list : Text → List Value
char_list [] = []
char_list (c ∷ cs) = str (c ∷ []) ∷ char_list cs

-- `getattr(v, k)`
unfoldable pub attr : Value → Text → Result Value
attr (dict fs) k = or_raise (find_field fs k) attribute_error
attr _ k = err attribute_error

-- `v[k]` at a string
unfoldable pub get_key : Value → Text → Result Value
get_key (dict fs) k = or_raise (find_field fs k) key_error
get_key _ k = err type_error

-- `for … in v`
unfoldable pub iterate : Value → Result (List Value)
iterate (list vs) = ok (of_values vs)
iterate (dict fs) = ok (key_list fs)
iterate (str s) = ok (char_list s)
iterate _ = err type_error

-- `v[i]` at a number
unfoldable pub get_index : Value → ℕ → Result Value
get_index (list vs) i = item (of_values vs) i
get_index (dict fs) i = err key_error
get_index (str s) i = item (char_list s) i
get_index _ i = err type_error

-- `len(v)`
unfoldable pub len : Value → Result ℕ
len v = do vs ← iterate v; ok (length vs)

abbrev is_prefix : Text → Text → Bool
is_prefix [] s = true
is_prefix (c ∷ cs) [] = false
is_prefix (c ∷ cs) (d ∷ ds) = let rest = is_prefix cs ds in if c == d then rest else false

abbrev is_infix : Text → Text → Bool
is_infix k [] = is_prefix k []
is_infix k (d ∷ ds) = let rest = is_infix k ds in if is_prefix k (d ∷ ds) then true else rest

-- `v == k` at a string
abbrev pub is_str : Text → Value → Bool
is_str k (str s) = k == s
is_str k _ = false

abbrev any_str : Text → Values → Bool
any_str k nil = false
any_str k (cons v vs) = let rest = any_str k vs in if is_str k v then true else rest

abbrev is_some {ℓ} : {A : Type ℓ} → Option A → Bool
is_some none = false
is_some (some _) = true

-- `k in v`
unfoldable pub key_in : Text → Value → Result Bool
key_in k (dict fs) = ok (is_some (find_field fs k))
key_in k (list vs) = ok (any_str k vs)
key_in k (str s) = ok (is_infix k s)
key_in k _ = err type_error

-- `v.a.b…`
unfoldable pub path : Value → List Text → Result Value
path v [] = ok v
path v (k ∷ ks) = attr v k >>= λ w. path w ks

-- The member's value at the key, or `None`: a round of the loop.
unfoldable pub member_value : Text → Value → Result Value
member_value key member = do found ← key_in key member; if found then attr member key else ok null

-- `Config._get_members`
unfoldable pub get_members : Value → Text → Option ℕ → Result Value
get_members obj_list key none = do
  members ← iterate obj_list
  list_ ← each (member_value key) members
  ok (list (to_values list_))
get_members obj_list key (some index) = do
  obj ← get_index obj_list index
  found ← key_in key obj
  elim found [ true ↦ attr obj key | false ↦ ok null ]

-- `list(range(0, n))`
abbrev pub range_from : ℕ → ℕ → List ℕ
range_from zero i = []
range_from (suc n) i = i ∷ range_from n (i + 1)

abbrev pub range : ℕ → List ℕ
range n = range_from n 0

-- A generator under `try:` that ends at an `AttributeError`.
abbrev pub except_attribute_error : Result (List Value) → Result (List Value)
except_attribute_error (err attribute_error) = ok []
except_attribute_error r = r

-- The same for a `TypeError` too.
abbrev pub except_type_error : Result (List Value) → Result (List Value)
except_type_error (err attribute_error) = ok []
except_type_error (err type_error) = ok []
except_type_error r = r

-- A value that is used as a text.
unfoldable pub as_text : Value → Result Text
as_text (str t) = ok t
as_text v = err type_error
