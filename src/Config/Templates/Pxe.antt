-- ===== src/Config/Templates/Pxe.antt =====
-- scripts/python/lib/config.py: the getters of the `pxe` interfaces of a node template.
use cluster_genesis.Base.{
  ℕ, Option, none, some, List, [], ◌∷◌, nat_eq, option_eq, codes, text_eq, Result, ◌>>=◌, ok,
}
use cluster_genesis.Base.Value.{Value, port_eq}
use cluster_genesis.Config.Access.{path, attr, iterate, get_index, len, get_members, range}
use cluster_genesis.Config.Templates.{node_template, physical_interface}

unfoldable pub get_ntmpl_phyintf_pxe_cnt : Value → ℕ → Result ℕ
get_ntmpl_phyintf_pxe_cnt cfg node_template_index = do
  template ← node_template cfg node_template_index
  members ← path template (codes "physical_interfaces" ∷ codes "pxe" ∷ [])
  len members

unfoldable pub yield_ntmpl_phyintf_pxe_ind : Value → ℕ → Result (List ℕ)
yield_ntmpl_phyintf_pxe_ind cfg node_template_index = do
  count ← get_ntmpl_phyintf_pxe_cnt cfg node_template_index
  ok (range count)

unfoldable pub get_ntmpl_phyintf_pxe_switch : Value → ℕ → Option ℕ → Result Value
get_ntmpl_phyintf_pxe_switch cfg node_template_index index = do
  template ← node_template cfg node_template_index
  obj_list ← path template (codes "physical_interfaces" ∷ codes "pxe" ∷ [])
  get_members obj_list (codes "switch") index

unfoldable yield_ntmpl_phyintf_pxe_switch : Value → ℕ → Result (List Value)
yield_ntmpl_phyintf_pxe_switch cfg node_template_index = do
  members ← get_ntmpl_phyintf_pxe_switch cfg node_template_index none
  iterate members

unfoldable get_ntmpl_phyintf_pxe_pt_cnt : Value → ℕ → ℕ → Result ℕ
get_ntmpl_phyintf_pxe_pt_cnt cfg node_template_index pxe_index = do
  item' ← physical_interface (codes "pxe") cfg node_template_index pxe_index
  ports ← attr item' (codes "ports")
  len ports

unfoldable yield_ntmpl_phyintf_pxe_pt_ind : Value → ℕ → ℕ → Result (List ℕ)
yield_ntmpl_phyintf_pxe_pt_ind cfg node_template_index pxe_index = do
  count ← get_ntmpl_phyintf_pxe_pt_cnt cfg node_template_index pxe_index
  ok (range count)

unfoldable pub get_ntmpl_phyintf_pxe_ports : Value → ℕ → ℕ → Option ℕ → Result Value
get_ntmpl_phyintf_pxe_ports cfg node_template_index pxe_index index = do
  item' ← physical_interface (codes "pxe") cfg node_template_index pxe_index
  ports ← attr item' (codes "ports")
  elim index [ none ↦ ok ports | some i ↦ get_index ports i ]

unfoldable yield_ntmpl_phyintf_pxe_ports : Value → ℕ → ℕ → Result (List Value)
yield_ntmpl_phyintf_pxe_ports cfg node_template_index pxe_index = do
  ports ← get_ntmpl_phyintf_pxe_ports cfg node_template_index pxe_index none
  iterate ports

unfoldable pub get_ntmpl_phyintf_pxe_interface : Value → ℕ → Option ℕ → Result Value
get_ntmpl_phyintf_pxe_interface cfg node_template_index index = do
  template ← node_template cfg node_template_index
  obj_list ← path template (codes "physical_interfaces" ∷ codes "pxe" ∷ [])
  get_members obj_list (codes "interface") index

unfoldable pub yield_ntmpl_phyintf_pxe_interface : Value → ℕ → Result (List Value)
yield_ntmpl_phyintf_pxe_interface cfg node_template_index = do
  members ← get_ntmpl_phyintf_pxe_interface cfg node_template_index none
  iterate members
