-- ===== src/Config/Switches/Mgmt.antt =====
-- scripts/python/lib/config.py: the getters of `switches: mgmt`.
use cluster_genesis.Base.{
  ℕ, Option, none, List, [], ◌∷◌, nat_eq, option_eq, codes, text_eq, Result, ◌>>=◌,
}
use cluster_genesis.Base.Value.{Value, port_eq}
use cluster_genesis.Config.Access.{path, iterate, len, get_members}

unfoldable pub get_sw_mgmt_cnt : Value → Result ℕ
get_sw_mgmt_cnt cfg = do members ← path cfg (codes "switches" ∷ codes "mgmt" ∷ []); len members

unfoldable pub get_sw_mgmt_label : Value → Option ℕ → Result Value
get_sw_mgmt_label cfg index = do
  obj_list ← path cfg (codes "switches" ∷ codes "mgmt" ∷ [])
  get_members obj_list (codes "label") index

unfoldable yield_sw_mgmt_label : Value → Result (List Value)
yield_sw_mgmt_label cfg = do members ← get_sw_mgmt_label cfg none; iterate members

unfoldable pub get_sw_mgmt_class : Value → Option ℕ → Result Value
get_sw_mgmt_class cfg index = do
  obj_list ← path cfg (codes "switches" ∷ codes "mgmt" ∷ [])
  get_members obj_list (codes "class") index

unfoldable yield_sw_mgmt_class : Value → Result (List Value)
yield_sw_mgmt_class cfg = do members ← get_sw_mgmt_class cfg none; iterate members

unfoldable get_sw_mgmt_hostname : Value → Option ℕ → Result Value
get_sw_mgmt_hostname cfg index = do
  obj_list ← path cfg (codes "switches" ∷ codes "mgmt" ∷ [])
  get_members obj_list (codes "hostname") index

unfoldable yield_sw_mgmt_hostname : Value → Result (List Value)
yield_sw_mgmt_hostname cfg = do members ← get_sw_mgmt_hostname cfg none; iterate members

unfoldable pub get_sw_mgmt_userid : Value → Option ℕ → Result Value
get_sw_mgmt_userid cfg index = do
  obj_list ← path cfg (codes "switches" ∷ codes "mgmt" ∷ [])
  get_members obj_list (codes "userid") index

unfoldable yield_sw_mgmt_userid : Value → Result (List Value)
yield_sw_mgmt_userid cfg = do members ← get_sw_mgmt_userid cfg none; iterate members

unfoldable pub get_sw_mgmt_password : Value → Option ℕ → Result Value
get_sw_mgmt_password cfg index = do
  obj_list ← path cfg (codes "switches" ∷ codes "mgmt" ∷ [])
  get_members obj_list (codes "password") index

unfoldable yield_sw_mgmt_password : Value → Result (List Value)
yield_sw_mgmt_password cfg = do members ← get_sw_mgmt_password cfg none; iterate members

unfoldable get_sw_mgmt_ssh_key : Value → Option ℕ → Result Value
get_sw_mgmt_ssh_key cfg index = do
  obj_list ← path cfg (codes "switches" ∷ codes "mgmt" ∷ [])
  get_members obj_list (codes "ssh_key") index

unfoldable yield_sw_mgmt_ssh_key : Value → Result (List Value)
yield_sw_mgmt_ssh_key cfg = do members ← get_sw_mgmt_ssh_key cfg none; iterate members

unfoldable pub get_sw_mgmt_rack_id : Value → Option ℕ → Result Value
get_sw_mgmt_rack_id cfg index = do
  obj_list ← path cfg (codes "switches" ∷ codes "mgmt" ∷ [])
  get_members obj_list (codes "rack_id") index

unfoldable yield_sw_mgmt_rack_id : Value → Result (List Value)
yield_sw_mgmt_rack_id cfg = do members ← get_sw_mgmt_rack_id cfg none; iterate members

unfoldable get_sw_mgmt_rack_eia : Value → Option ℕ → Result Value
get_sw_mgmt_rack_eia cfg index = do
  obj_list ← path cfg (codes "switches" ∷ codes "mgmt" ∷ [])
  get_members obj_list (codes "rack_eia") index

unfoldable yield_sw_mgmt_rack_eia : Value → Result (List Value)
yield_sw_mgmt_rack_eia cfg = do members ← get_sw_mgmt_rack_eia cfg none; iterate members
