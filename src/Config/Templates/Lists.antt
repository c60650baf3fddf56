-- ===== src/Config/Templates/Lists.antt =====
-- scripts/python/lib/config.py: the getters of the list of node templates.
use cluster_genesis.Base.{
  ℕ, Option, none, List, [], ◌∷◌, nat_eq, option_eq, codes, text_eq, Result, ◌>>=◌, ok,
}
use cluster_genesis.Base.Value.{Value, port_eq}
use cluster_genesis.Config.Access.{path, iterate, len, get_members, range}
use cluster_genesis.Config.Templates.{node_template}

unfoldable pub get_ntmpl_cnt : Value → Result ℕ
get_ntmpl_cnt cfg = do members ← path cfg (codes "node_templates" ∷ []); len members

unfoldable pub yield_ntmpl_ind : Value → Result (List ℕ)
yield_ntmpl_ind cfg = do count ← get_ntmpl_cnt cfg; ok (range count)

unfoldable pub get_ntmpl_label : Value → Option ℕ → Result Value
get_ntmpl_label cfg index = do
  obj_list ← path cfg (codes "node_templates" ∷ [])
  get_members obj_list (codes "label") index

unfoldable pub yield_ntmpl_label : Value → Result (List Value)
yield_ntmpl_label cfg = do members ← get_ntmpl_label cfg none; iterate members

unfoldable get_ntmpl_netw_cnt : Value → ℕ → Result ℕ
get_ntmpl_netw_cnt cfg node_template_index = do
  template ← node_template cfg node_template_index
  members ← path template (codes "networks" ∷ [])
  len members

unfoldable get_ntmpl_intf_cnt : Value → ℕ → Result ℕ
get_ntmpl_intf_cnt cfg node_template_index = do
  template ← node_template cfg node_template_index
  members ← path template (codes "interfaces" ∷ [])
  len members
