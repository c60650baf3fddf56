-- ===== src/Config/Templates/Data.antt =====
-- scripts/python/lib/config.py: the getters of the `data` interfaces of a node template.
use cluster_genesis.Base.{
  ℕ, Option, none, some, List, [], ◌∷◌, nat_eq, option_eq, codes, text_eq, Result, ◌>>=◌, ok,
}
use cluster_genesis.Base.Value.{Value, port_eq}
use cluster_genesis.Config.Access.{path, attr, iterate, get_index, len, get_members, range}
use cluster_genesis.Config.Templates.{node_template, physical_interface}

unfoldable pub get_ntmpl_phyintf_data_switch : Value → ℕ → Option ℕ → Result Value
get_ntmpl_phyintf_data_switch cfg node_template_index index = do
  template ← node_template cfg node_template_index
  obj_list ← path template (codes "physical_interfaces" ∷ codes "data" ∷ [])
  get_members obj_list (codes "switch") index

unfoldable yield_ntmpl_phyintf_data_switch : Value → ℕ → Result (List Value)
yield_ntmpl_phyintf_data_switch cfg node_template_index = do
  members ← get_ntmpl_phyintf_data_switch cfg node_template_index none
  iterate members

unfoldable pub get_ntmpl_phyintf_data_ifc : Value → ℕ → Option ℕ → Result Value
get_ntmpl_phyintf_data_ifc cfg node_template_index index = do
  template ← node_template cfg node_template_index
  obj_list ← path template (codes "physical_interfaces" ∷ codes "data" ∷ [])
  get_members obj_list (codes "interface") index

unfoldable yield_ntmpl_phyintf_data_ifc : Value → ℕ → Result (List Value)
yield_ntmpl_phyintf_data_ifc cfg node_template_index = do
  members ← get_ntmpl_phyintf_data_ifc cfg node_template_index none
  iterate members

unfoldable get_ntmpl_phyintf_data_pt_cnt : Value → ℕ → ℕ → Result ℕ
get_ntmpl_phyintf_data_pt_cnt cfg node_template_index data_index = do
  item' ← physical_interface (codes "data") cfg node_template_index data_index
  ports ← attr item' (codes "ports")
  len ports

unfoldable yield_ntmpl_phyintf_data_pt_ind : Value → ℕ → ℕ → Result (List ℕ)
yield_ntmpl_phyintf_data_pt_ind cfg node_template_index data_index = do
  count ← get_ntmpl_phyintf_data_pt_cnt cfg node_template_index data_index
  ok (range count)

unfoldable pub get_ntmpl_phyintf_data_ports : Value → ℕ → ℕ → Option ℕ → Result Value
get_ntmpl_phyintf_data_ports cfg node_template_index data_index index = do
  item' ← physical_interface (codes "data") cfg node_template_index data_index
  ports ← attr item' (codes "ports")
  elim index [ none ↦ ok ports | some i ↦ get_index ports i ]

unfoldable yield_ntmpl_phyintf_data_ports : Value → ℕ → ℕ → Result (List Value)
yield_ntmpl_phyintf_data_ports cfg node_template_index data_index = do
  ports ← get_ntmpl_phyintf_data_ports cfg node_template_index data_index none
  iterate ports
