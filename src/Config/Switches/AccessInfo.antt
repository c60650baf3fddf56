-- ===== src/Config/Switches/AccessInfo.antt =====
-- scripts/python/lib/config.py: `get_sw_mgmt_access_info` and `get_sw_data_access_info`.
use cluster_genesis.Base.{
  ℕ, ◌≡◌, Bool, true, false, not, Option, none, some, List, [], ◌∷◌, leb, if◌then◌else◌, ◌==◌,
  nat_eq, option_eq, get_elem?, Text, codes, text_eq, Result, ◌>>=◌, >>=-eq-ok, each,
  user_exception, ok, err,
}
use cluster_genesis.Base.Value.{
  Value, port_eq, null, bool, int, str, list, dict, nil, cons, end, field,
}
use cluster_genesis.Config.Members.{each-range}
use cluster_genesis.Config.Access.{path, attr, iterate, get_index, is_str, range}
use cluster_genesis.Config.Switches.Mgmt.{
  get_sw_mgmt_label, get_sw_mgmt_cnt, get_sw_mgmt_class, get_sw_mgmt_userid, get_sw_mgmt_password,
}
use cluster_genesis.Config.Switches.Data.{
  get_sw_data_label, get_sw_data_cnt, get_sw_data_class, get_sw_data_userid, get_sw_data_password,
}

-- `ai_tuple`
pub record AccessInfo : Type 0 where
  pub label : Value
  pub class : Value
  pub ipaddr : Value
  pub userid : Value
  pub password : Value

-- The result: one tuple, or a list of them.
pub data AccessInfos : Type 0 where
  one : AccessInfo → AccessInfos
  many : List AccessInfo → AccessInfos

-- `bool(v)`
abbrev pub truthy : Value → Bool
truthy null = false
truthy (bool b) = b
truthy (int n) = not (n == 0)
truthy (str []) = false
truthy (str (c ∷ cs)) = true
truthy (list nil) = false
truthy (list (cons v vs)) = true
truthy (dict end) = false
truthy (dict (field k v fs)) = true

-- The loop over the interfaces: the first of the type wins, else the first address there is.
unfoldable pub choose_ipaddr : Text → List Value → Value → Result Value
unfolding attr
choose_ipaddr type_ifc [] ipaddr = ok ipaddr
choose_ipaddr type_ifc (ifc ∷ ifcs) ipaddr =
    let rest = choose_ipaddr type_ifc ifcs in
    do
      type' ← attr ifc (codes "type")
      elim (is_str type_ifc type') [
        | true ↦ attr ifc (codes "ipaddr")
        | false ↦ elim (truthy ipaddr) [
          | true ↦ rest ipaddr
          | false ↦ attr ifc (codes "ipaddr") >>= rest
        ]
      ]

-- A round of the loop over `switch_indices`.
unfoldable pub mgmt_access_info : Value → Text → ℕ → Result AccessInfo
unfolding path get_index iterate get_sw_mgmt_label get_sw_mgmt_class get_sw_mgmt_userid
    get_sw_mgmt_password choose_ipaddr
mgmt_access_info cfg type_ifc sw_idx = do
  label ← get_sw_mgmt_label cfg (some sw_idx)
  class ← get_sw_mgmt_class cfg (some sw_idx)
  switches ← path cfg (codes "switches" ∷ codes "mgmt" ∷ [])
  switch ← get_index switches sw_idx
  interfaces ← attr switch (codes "interfaces")
  ifcs ← iterate interfaces
  ipaddr ← choose_ipaddr type_ifc ifcs null
  userid ← get_sw_mgmt_userid cfg (some sw_idx)
  password ← get_sw_mgmt_password cfg (some sw_idx)
  ok (record {
    label = label;
    class = class;
    ipaddr = ipaddr;
    userid = userid;
    password = password;
  })

unfoldable pub data_access_info : Value → Text → ℕ → Result AccessInfo
unfolding path get_index iterate get_sw_data_label get_sw_data_class get_sw_data_userid
    get_sw_data_password choose_ipaddr
data_access_info cfg type_ifc sw_idx = do
  label ← get_sw_data_label cfg (some sw_idx)
  class ← get_sw_data_class cfg (some sw_idx)
  switches ← path cfg (codes "switches" ∷ codes "data" ∷ [])
  switch ← get_index switches sw_idx
  interfaces ← attr switch (codes "interfaces")
  ifcs ← iterate interfaces
  ipaddr ← choose_ipaddr type_ifc ifcs null
  userid ← get_sw_data_userid cfg (some sw_idx)
  password ← get_sw_data_password cfg (some sw_idx)
  ok (record {
    label = label;
    class = class;
    ipaddr = ipaddr;
    userid = userid;
    password = password;
  })

-- `index > cnt - 1` raises; an index gives a tuple.
unfoldable pub get_sw_mgmt_access_info : Value → Option ℕ → Text → Result AccessInfos
unfolding get_sw_mgmt_cnt mgmt_access_info
get_sw_mgmt_access_info cfg none type_ifc = do
  cnt ← get_sw_mgmt_cnt cfg
  ai_list ← each (mgmt_access_info cfg type_ifc) (range cnt)
  ok (many ai_list)
get_sw_mgmt_access_info cfg (some index) type_ifc = do
  cnt ← get_sw_mgmt_cnt cfg
  elim (leb cnt index) [
    | true ↦ err user_exception
    | false ↦ mgmt_access_info cfg type_ifc index >>= λ ai. ok (one ai)
  ]

-- The last test is `if index:`, so that index 0 gives the list with its one tuple.
unfoldable pub get_sw_data_access_info : Value → Option ℕ → Text → Result AccessInfos
unfolding get_sw_data_cnt data_access_info
get_sw_data_access_info cfg none type_ifc = do
  cnt ← get_sw_data_cnt cfg
  ai_list ← each (data_access_info cfg type_ifc) (range cnt)
  ok (many ai_list)
get_sw_data_access_info cfg (some index) type_ifc = do
  cnt ← get_sw_data_cnt cfg
  elim (leb cnt index) [
    | true ↦ err user_exception
    | false ↦ data_access_info cfg type_ifc index >>= λ ai.
        ok (if index == 0 then many (ai ∷ []) else one ai)
  ]

many-injective : (l l' : List AccessInfo) → ok (many l) ≡ ok (many l') → l ≡ l'
many-injective l l' h = cc

-- If the tuples of all management switches can be had, then an index gives its tuple, and an index
-- behind the last switch raises a `UserException`.
pub get_sw_mgmt_access_info_correct :
    (cfg : Value) (type_ifc : Text) (infos : List AccessInfo)
    → get_sw_mgmt_access_info cfg none type_ifc ≡ ok (many infos)
    → (i : ℕ)
    → get_sw_mgmt_access_info cfg (some i) type_ifc
      ≡ (elim (get_elem? infos i) [ none ↦ err user_exception | some ai ↦ ok (one ai) ])
unfolding get_sw_mgmt_access_info
get_sw_mgmt_access_info_correct cfg type_ifc infos h i =
    let (cnt, e, h') = >>=-eq-ok (get_sw_mgmt_cnt cfg) _ h in
    let (l, e', h'') =
      >>=-eq-ok (each (mgmt_access_info cfg type_ifc) (range cnt)) (λ l. ok (many l)) h' in
    rw e (
      each-range (mgmt_access_info cfg type_ifc) one cnt i infos
        (rw (many-injective l infos h'') at e'))

-- The same for the data switches, but for index 0: it gives the list with the one tuple.
pub get_sw_data_access_info_correct :
    (cfg : Value) (type_ifc : Text) (infos : List AccessInfo)
    → get_sw_data_access_info cfg none type_ifc ≡ ok (many infos)
    → (i : ℕ)
    → get_sw_data_access_info cfg (some i) type_ifc ≡ (elim (get_elem? infos i) [
      | none ↦ err user_exception
      | some ai ↦ ok (if i == 0 then many (ai ∷ []) else one ai)
    ])
unfolding get_sw_data_access_info
get_sw_data_access_info_correct cfg type_ifc infos h i =
    let (cnt, e, h') = >>=-eq-ok (get_sw_data_cnt cfg) _ h in
    let (l, e', h'') =
      >>=-eq-ok (each (data_access_info cfg type_ifc) (range cnt)) (λ l. ok (many l)) h' in
    rw e (
      each-range (data_access_info cfg type_ifc) (λ ai. if i == 0 then many (ai ∷ []) else one ai)
        cnt i infos (rw (many-injective l infos h'') at e'))
