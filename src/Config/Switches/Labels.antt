-- ===== src/Config/Switches/Labels.antt =====
-- scripts/python/lib/config.py: `get_sw_mgmt_index_by_label` and `get_sw_data_index_by_label`.
use cluster_genesis.Base.{
  ℕ, suc, ◌+◌, ◌≡◌, sym, ap, ◌∙◌, inl, inr, true, Option, none, some, List, [], ◌∷◌, arith,
  if◌then◌else◌, nat_eq, option_eq, Bool-cases, Option-cases, Text, codes, text_beq_iff, text_eq,
  Result, ◌>>=◌, item, >>=-eq-ok, err-ne-ok, ok,
}
use cluster_genesis.Base.Value.{Value, Values, port_eq, null, bool, int, str, list, dict}
use cluster_genesis.Config.Switches.Mgmt.{get_sw_mgmt_label}
use cluster_genesis.Config.Members.{get_members-item}
use cluster_genesis.Config.Access.{
  path, attr, iterate, is_str, of_values, find_field, key_in, member_value,
}

-- The loop over the switches from an index on; `none` is no return.
unfoldable pub index_by_label : Text → ℕ → List Value → Result (Option ℕ)
index_by_label label index [] = ok none
index_by_label label index (switch ∷ switches) =
    let rest = index_by_label label (index + 1) switches in
    do found ← attr switch (codes "label"); if is_str label found then ok (some index) else rest

unfoldable pub get_sw_mgmt_index_by_label : Value → Text → Result (Option ℕ)
get_sw_mgmt_index_by_label cfg label = do
  members ← path cfg (codes "switches" ∷ codes "mgmt" ∷ [])
  switches ← iterate members
  index_by_label label 0 switches

unfoldable pub get_sw_data_index_by_label : Value → Text → Result (Option ℕ)
get_sw_data_index_by_label cfg label = do
  members ← path cfg (codes "switches" ∷ codes "data" ∷ [])
  switches ← iterate members
  index_by_label label 0 switches

is_str-eq : (label : Text) (v : Value) → is_str label v ≡ true → v ≡ str label
is_str-eq label null h = cc
is_str-eq label (bool b) h = cc
is_str-eq label (int n) h = cc
is_str-eq label (str s) h = ap str (sym ((text_beq_iff label s).0 h))
is_str-eq label (list vs) h = cc
is_str-eq label (dict fs) h = cc

attr-member_value : (key : Text) (v w : Value) → attr v key ≡ ok w → member_value key v ≡ ok w
unfolding attr member_value key_in
attr-member_value key null w h = cc
attr-member_value key (bool b) w h = cc
attr-member_value key (int n) w h = cc
attr-member_value key (str s) w h = cc
attr-member_value key (list vs) w h = cc
attr-member_value key (dict fs) w h = elim (Option-cases (find_field fs key)) [
  | inl e ↦ err-ne-ok (rw e at h)
  | inr (v, e) ↦ rw e (rw e at h)
]

-- The label at an index.
abbrev HasLabel : List Value → ℕ → Text → Type 0
HasLabel switches j label = (item switches j >>= λ v. attr v (codes "label")) ≡ ok (str label)

ok-some : (k i : ℕ) → ok (some k) ≡ ok (some i) → i ≡ k + 0
ok-some k i h = let e : k ≡ i = cc in omega (arith, e)

index_by_label_next :
    (label : Text) (k : ℕ) (v found : Value) (vs : List Value) (i : ℕ)
    → (index_by_label label (k + 1) vs ≡ ok (some i)
        → (j : ℕ) × (i ≡ k + 1 + j) × HasLabel vs j label)
    → attr v (codes "label") ≡ ok found
    → (if is_str label found then ok (some k) else index_by_label label (k + 1) vs) ≡ ok (some i)
    → (j : ℕ) × (i ≡ k + j) × HasLabel (v ∷ vs) j label
index_by_label_next label k v found vs i later e h = elim (Bool-cases (is_str label found)) [
  | inl y ↦ (0, ok-some k i (rw y at h), e ∙ ap ok (is_str-eq label found y))
  | inr n ↦ let (j, e', at_j) = later (rw n at h) in (suc j, omega (arith, e'), at_j)
]

-- What a search finds stands at its index.
index_by_label_found :
    (label : Text) (k : ℕ) (switches : List Value) (i : ℕ)
    → index_by_label label k switches ≡ ok (some i)
    → (j : ℕ) × (i ≡ k + j) × HasLabel switches j label
unfolding index_by_label
index_by_label_found label k [] i h = cc
index_by_label_found label k (v ∷ vs) i h =
    let (found, e, h') = >>=-eq-ok (attr v (codes "label")) _ h in
    index_by_label_next label k v found vs i (index_by_label_found label (k + 1) vs i) e h'

-- If a management switch is found by its label, its index is that of a switch with the label.
pub get_sw_mgmt_index_by_label_correct :
    (cfg : Value) (label : Text) (vs : Values) (i : ℕ)
    → path cfg (codes "switches" ∷ codes "mgmt" ∷ []) ≡ ok (list vs)
    → get_sw_mgmt_index_by_label cfg label ≡ ok (some i)
    → get_sw_mgmt_label cfg (some i) ≡ ok (str label)
unfolding get_sw_mgmt_index_by_label get_sw_mgmt_label iterate
get_sw_mgmt_index_by_label_correct cfg label vs i p h =
    let (j, e, at_j) = index_by_label_found label 0 (of_values vs) i (rw p at h) in
    let (v, at_i, has) = >>=-eq-ok (item (of_values vs) j) _ at_j in
    let same : i ≡ j = omega (arith, e) in
    rw (p, same)
      (get_members-item vs (codes "label") j
        ∙ rw at_i (attr-member_value (codes "label") v (str label) has))
