-- ===== src/Validate/Aliased.antt =====
-- scripts/python/lib/validate_config_logic.py: the physical interfaces are read from the loaded
-- configuration, and checking them changes it. `_add_ports_to_ports_list` keeps for a switch the
-- list of ports of its first entry, and `+=` extends that list by the ports of the later entries.
-- The getters of the PXE and IPMI ports give the list of the configuration itself, that of the data
-- ports a copy. No two entries of the file share a list, and labels and switches are texts.
use cluster_genesis.Base.{
  ℕ, zero, suc, ◌+◌, Option, none, some, List, [], ◌∷◌, ◌++◌, map, if◌then◌else◌, nat_eq, ◌==◌,
  option_eq, Text, codes, text_eq, Dict, lookup, insert, Result, ◌>>=◌, each, ok,
}
use cluster_genesis.Base.Value.{
  Value, Values, Fields, Port, port_eq, null, int, str, list, dict, nil, cons, end, field, num,
  name,
}
use cluster_genesis.Config.Access.{of_values, to_values, iterate, as_text}
use cluster_genesis.Config.Switches.Data.{get_sw_data_label}
use cluster_genesis.Config.Switches.Mgmt.{get_sw_mgmt_label}
use cluster_genesis.Config.Templates.Lists.{yield_ntmpl_ind, get_ntmpl_label}
use cluster_genesis.Config.Templates.Ifcs.{get_interfaces, yield_ntmpl_phyintf_data_ind}
use cluster_genesis.Config.Templates.Ipmi.{
  yield_ntmpl_phyintf_ipmi_ind, get_ntmpl_phyintf_ipmi_switch, get_ntmpl_phyintf_ipmi_ports,
}
use cluster_genesis.Config.Templates.Pxe.{
  yield_ntmpl_phyintf_pxe_ind, get_ntmpl_phyintf_pxe_switch, get_ntmpl_phyintf_pxe_ports,
  get_ntmpl_phyintf_pxe_interface,
}
use cluster_genesis.Config.Templates.Data.{
  get_ntmpl_phyintf_data_switch, get_ntmpl_phyintf_data_ifc, get_ntmpl_phyintf_data_ports,
}
use cluster_genesis.Config.Templates.Settings.{
  get_ntmpl_phyintf_pxe_rename, get_ntmpl_phyintf_data_rename,
}
use cluster_genesis.DataSwitch.Vlans.{as_port, text_at}
use cluster_genesis.Validate.{Complaint, PhyIfc, NodeTemplate, validate_physical_interfaces}

unfoldable pub read_data : Value → ℕ → ℕ → Result PhyIfc
unfolding get_ntmpl_phyintf_data_ifc get_ntmpl_phyintf_data_rename get_ntmpl_phyintf_data_switch
    get_ntmpl_phyintf_data_ports as_text as_port
read_data cfg ntmpl_ind phyintf_idx = do
  ifc ← get_ntmpl_phyintf_data_ifc cfg ntmpl_ind (some phyintf_idx)
  interface ← as_text ifc
  rename ← get_ntmpl_phyintf_data_rename cfg ntmpl_ind phyintf_idx
  sw ← get_ntmpl_phyintf_data_switch cfg ntmpl_ind (some phyintf_idx)
  switch ← as_text sw
  found ← get_ntmpl_phyintf_data_ports cfg ntmpl_ind phyintf_idx none
  members ← iterate found
  ports ← each as_port members
  ok (record { interface = interface; rename = rename; switch = switch; ports = ports })

unfoldable pub read_pxe : Value → ℕ → ℕ → Result PhyIfc
unfolding get_ntmpl_phyintf_pxe_interface get_ntmpl_phyintf_pxe_rename get_ntmpl_phyintf_pxe_switch
    get_ntmpl_phyintf_pxe_ports as_text as_port
read_pxe cfg ntmpl_ind phyintf_idx = do
  ifc ← get_ntmpl_phyintf_pxe_interface cfg ntmpl_ind (some phyintf_idx)
  interface ← as_text ifc
  rename ← get_ntmpl_phyintf_pxe_rename cfg ntmpl_ind phyintf_idx
  sw ← get_ntmpl_phyintf_pxe_switch cfg ntmpl_ind (some phyintf_idx)
  switch ← as_text sw
  found ← get_ntmpl_phyintf_pxe_ports cfg ntmpl_ind phyintf_idx none
  members ← iterate found
  ports ← each as_port members
  ok (record { interface = interface; rename = rename; switch = switch; ports = ports })

unfoldable pub read_ipmi : Value → ℕ → ℕ → Result PhyIfc
unfolding get_ntmpl_phyintf_ipmi_switch get_ntmpl_phyintf_ipmi_ports as_text as_port
read_ipmi cfg ntmpl_ind phyintf_idx = do
  sw ← get_ntmpl_phyintf_ipmi_switch cfg ntmpl_ind (some phyintf_idx)
  switch ← as_text sw
  found ← get_ntmpl_phyintf_ipmi_ports cfg ntmpl_ind phyintf_idx none
  members ← iterate found
  ports ← each as_port members
  ok (record { interface = []; rename = null; switch = switch; ports = ports })

unfoldable pub read_ntmpl : Value → ℕ → Result NodeTemplate
unfolding get_ntmpl_label yield_ntmpl_phyintf_data_ind yield_ntmpl_phyintf_pxe_ind
    yield_ntmpl_phyintf_ipmi_ind read_data read_pxe read_ipmi as_text
read_ntmpl cfg ntmpl_ind = do
  lbl ← get_ntmpl_label cfg (some ntmpl_ind)
  label ← as_text lbl
  data_inds ← yield_ntmpl_phyintf_data_ind cfg ntmpl_ind
  of_data ← each (read_data cfg ntmpl_ind) data_inds
  pxe_inds ← yield_ntmpl_phyintf_pxe_ind cfg ntmpl_ind
  of_pxe ← each (read_pxe cfg ntmpl_ind) pxe_inds
  ipmi_inds ← yield_ntmpl_phyintf_ipmi_ind cfg ntmpl_ind
  of_ipmi ← each (read_ipmi cfg ntmpl_ind) ipmi_inds
  ok (record { label = label; ipmi = of_ipmi; pxe = of_pxe; data' = of_data })

-- The value at a key or an index, replaced.
unfoldable pub in_fields : Text → (Value → Value) → Fields → Fields
in_fields k f end = end
in_fields k f (field j v fs) =
    let rest = in_fields k f fs in if j == k then field j (f v) fs else field j v rest

unfoldable pub at_key : Text → (Value → Value) → Value → Value
unfolding in_fields
at_key k f (dict fs) = dict (in_fields k f fs)
at_key k f v = v

unfoldable pub in_items : ℕ → (Value → Value) → Values → Values
in_items i f nil = nil
in_items zero f (cons v vs) = cons (f v) vs
in_items (suc i) f (cons v vs) = cons v (in_items i f vs)

unfoldable pub at_index : ℕ → (Value → Value) → Value → Value
unfolding in_items
at_index i f (list vs) = list (in_items i f vs)
at_index i f v = v

abbrev pub from_port : Port → Value
from_port (num n) = int n
from_port (name t) = str t

unfoldable pub with_ports_behind : List Port → Value → Value
with_ports_behind ports (list vs) = list (to_values (of_values vs ++ map from_port ports))
with_ports_behind ports v = v

-- Where the list of ports of a switch stands in the configuration.
pub record Owner : Type 0 where
  pub ntmpl_ind : ℕ
  pub phyintf_type : Text
  pub phyintf_idx : ℕ

unfoldable pub extend : Owner → List Port → Value → Value
unfolding at_key at_index with_ports_behind
extend o ports = at_key (codes "node_templates") (
    at_index o.ntmpl_ind (
      at_key (codes "physical_interfaces") (
        at_key o.phyintf_type
          (at_index o.phyintf_idx (at_key (codes "ports") (with_ports_behind ports))))))

-- The entries of a type, with the place of the list of ports that the getter gives.
unfoldable pub owned : ℕ → Text → ℕ → List PhyIfc → List (Option Owner × PhyIfc)
owned n type_ i [] = []
owned n type_ i (ifc ∷ ifcs) =
    (some (record { ntmpl_ind = n; phyintf_type = type_; phyintf_idx = i }), ifc)
    ∷ owned n type_ (i + 1) ifcs

-- The getter of the data ports gives a copy of the list.
abbrev pub copied_ports : PhyIfc → Option Owner × PhyIfc
copied_ports ifc = (none, ifc)

-- The entries of the node templates, in the order of the loops.
unfoldable pub entries_from : ℕ → List NodeTemplate → List (Option Owner × PhyIfc)
unfolding owned
entries_from n [] = []
entries_from n (t ∷ ts) =
    map copied_ports t.data'
    ++ owned n (codes "pxe") 0 t.pxe
    ++ owned n (codes "ipmi") 0 t.ipmi
    ++ entries_from (n + 1) ts

-- For each switch, the list of its first entry is extended; a copy is none of the configuration.
unfoldable pub aliased : List (Option Owner × PhyIfc) → Dict Text (Option Owner) → Value → Value
unfolding extend
aliased [] owners cfg = cfg
aliased ((o, ifc) ∷ es) owners cfg = elim (lookup ifc.switch owners) [
  | none ↦ aliased es (insert ifc.switch o owners) cfg
  | some none ↦ aliased es owners cfg
  | some (some first) ↦ aliased es owners (extend first ifc.ports cfg)
]

-- What the check complains about, and the configuration behind it.
unfoldable pub check_physical : Value → Result (List Complaint × Value)
unfolding get_interfaces text_at get_sw_mgmt_label get_sw_data_label as_text yield_ntmpl_ind
    read_ntmpl validate_physical_interfaces entries_from aliased
check_physical cfg = do
  found ← get_interfaces cfg
  ifcs ← iterate found
  ifc_lbls ← each (λ ifc. text_at ifc (codes "label")) ifcs
  mgmt ← get_sw_mgmt_label cfg none
  mgmt_labels ← iterate mgmt
  data_switches ← get_sw_data_label cfg none
  data_labels ← iterate data_switches
  sw_lbls ← each as_text (mgmt_labels ++ data_labels)
  inds ← yield_ntmpl_ind cfg
  ntmpls ← each (read_ntmpl cfg) inds
  ok (validate_physical_interfaces ifc_lbls sw_lbls ntmpls, aliased (entries_from 0 ntmpls) [] cfg)
