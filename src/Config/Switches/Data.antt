-- ===== src/Config/Switches/Data.antt =====
-- scripts/python/lib/config.py: the getters of `switches: data`.
use cluster_genesis.Base.{
  ℕ, Option, none, List, [], ◌∷◌, nat_eq, option_eq, codes, text_eq, Result, ◌>>=◌,
}
use cluster_genesis.Base.Value.{Value, port_eq}
use cluster_genesis.Config.Access.{path, iterate, len, get_members}

unfoldable pub get_sw_data_cnt : Value → Result ℕ
get_sw_data_cnt cfg = do members ← path cfg (codes "switches" ∷ codes "data" ∷ []); len members

unfoldable pub get_sw_data_label : Value → Option ℕ → Result Value
get_sw_data_label cfg index = do
  obj_list ← path cfg (codes "switches" ∷ codes "data" ∷ [])
  get_members obj_list (codes "label") index

unfoldable pub yield_sw_data_label : Value → Result (List Value)
yield_sw_data_label cfg = do members ← get_sw_data_label cfg none; iterate members

unfoldable pub get_sw_data_class : Value → Option ℕ → Result Value
get_sw_data_class cfg index = do
  obj_list ← path cfg (codes "switches" ∷ codes "data" ∷ [])
  get_members obj_list (codes "class") index

unfoldable yield_sw_data_class : Value → Result (List Value)
yield_sw_data_class cfg = do members ← get_sw_data_class cfg none; iterate members

unfoldable get_sw_data_hostname : Value → Option ℕ → Result Value
get_sw_data_hostname cfg index = do
  obj_list ← path cfg (codes "switches" ∷ codes "data" ∷ [])
  get_members obj_list (codes "hostname") index

unfoldable yield_sw_data_hostname : Value → Result (List Value)
yield_sw_data_hostname cfg = do members ← get_sw_data_hostname cfg none; iterate members

unfoldable pub get_sw_data_userid : Value → Option ℕ → Result Value
get_sw_data_userid cfg index = do
  obj_list ← path cfg (codes "switches" ∷ codes "data" ∷ [])
  get_members obj_list (codes "userid") index

unfoldable yield_sw_data_userid : Value → Result (List Value)
yield_sw_data_userid cfg = do members ← get_sw_data_userid cfg none; iterate members

unfoldable pub get_sw_data_password : Value → Option ℕ → Result Value
get_sw_data_password cfg index = do
  obj_list ← path cfg (codes "switches" ∷ codes "data" ∷ [])
  get_members obj_list (codes "password") index

unfoldable yield_sw_data_password : Value → Result (List Value)
yield_sw_data_password cfg = do members ← get_sw_data_password cfg none; iterate members

unfoldable get_sw_data_ssh_key : Value → Option ℕ → Result Value
get_sw_data_ssh_key cfg index = do
  obj_list ← path cfg (codes "switches" ∷ codes "data" ∷ [])
  get_members obj_list (codes "ssh_key") index

unfoldable yield_sw_data_ssh_key : Value → Result (List Value)
yield_sw_data_ssh_key cfg = do members ← get_sw_data_ssh_key cfg none; iterate members
