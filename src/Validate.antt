-- ===== src/Validate.antt =====
-- scripts/python/lib/validate_config_logic.py: `_validate_physical_interfaces`, which looks for
-- undefined switches and interfaces, and for ports of a switch that are used twice.
pub mod Networks
pub mod Hosts
pub mod Images
pub mod Aliased
pub mod Logic
pub mod Bootstrap
pub mod Ports
pub mod Physical
use cluster_genesis.Base.{
  Bool, true, false, none, some, List, [], ◌∷◌, ◌++◌, foldl, if◌then◌else◌, nat_eq, option_eq,
  contains, Text, text_eq, Dict, keys, lookup, insert,
}
use cluster_genesis.Base.Value.{Value, Port, port_eq, bool}

-- An entry of `physical_interfaces`, as the getters give it, so with the default of `rename`; for an
-- `ipmi` entry neither the interface label nor `rename` is read.
pub record PhyIfc : Type 0 where
  pub interface : Text
  pub rename : Value
  pub switch : Text
  pub ports : List Port

pub record NodeTemplate : Type 0 where
  pub label : Text
  pub ipmi : List PhyIfc
  pub pxe : List PhyIfc
  pub data' : List PhyIfc

-- What is added to `self.exc`.
pub data Complaint : Type 0 where
  undefined_switch : Text → Text → Complaint
  undefined_interface : Text → Text → Complaint
  invalid_rename : Text → Text → Complaint
  duplicate_ports : Text → List Port → Complaint

-- `get_dupes`, from what it has found on.
unfoldable pub dupes_from : List Port → List Port → List Port
dupes_from found [] = []
dupes_from found (item' ∷ items) =
    if contains found item'
    then item' ∷ dupes_from found items
    else dupes_from (found ++ item' ∷ []) items

unfoldable pub get_dupes : List Port → List Port
get_dupes items = dupes_from [] items

-- The state of the loops: the complaints so far, and the ports of each switch.
pub record Checked : Type 0 where
  pub exc : List Complaint
  pub ports_list : Dict Text (List Port)

-- `_add_ports_to_ports_list`
unfoldable pub add_ports_to_ports_list :
    Text → List Port → Dict Text (List Port) → Dict Text (List Port)
add_ports_to_ports_list switch ports ports_list = elim (lookup switch ports_list) [
  | none ↦ insert switch ports ports_list
  | some old ↦ insert switch (old ++ ports) ports_list
]

-- `ports_list[switch]`; a switch that is not in it has no ports there.
abbrev pub ports_at : Text → Dict Text (List Port) → List Port
ports_at switch ports_list = elim (lookup switch ports_list) [ none ↦ [] | some ports ↦ ports ]

-- The loop over the switches of `ports_list`.
unfoldable pub duplicate_complaints : List Text → Dict Text (List Port) → List Complaint
duplicate_complaints [] ports_list = []
duplicate_complaints (switch ∷ switches) ports_list =
    let later = duplicate_complaints switches ports_list in
    elim (get_dupes (ports_at switch ports_list)) [
      | [] ↦ later
      | p ∷ ps ↦ duplicate_ports switch (p ∷ ps) ∷ later
    ]

-- `rename is True or rename is False`
abbrev pub is_bool : Value → Bool
is_bool (bool b) = true
is_bool _ = false

module _ (ifc_lbls sw_lbls : List Text) where
  unfoldable pub validate_switch_defined : Text → Text → List Complaint
  validate_switch_defined ntmpl_lbl switch =
      if contains sw_lbls switch then [] else undefined_switch switch ntmpl_lbl ∷ []

  unfoldable pub validate_interface_defined : Text → Text → List Complaint
  validate_interface_defined ntmpl_lbl phy_ifc_lbl =
      if contains ifc_lbls phy_ifc_lbl then [] else undefined_interface phy_ifc_lbl ntmpl_lbl ∷ []

  unfoldable pub validate_rename : Text → PhyIfc → List Complaint
  validate_rename ntmpl_lbl ifc =
      if is_bool ifc.rename then [] else invalid_rename ntmpl_lbl ifc.interface ∷ []

  -- A round of the loop over the `data` entries, and of the one over the `pxe` entries.
  unfoldable pub check_phyintf : Text → Checked → PhyIfc → Checked
  check_phyintf ntmpl_lbl s ifc = record {
    exc =
        ((s.exc ++ validate_interface_defined ntmpl_lbl ifc.interface)
          ++ validate_rename ntmpl_lbl ifc)
        ++ validate_switch_defined ntmpl_lbl ifc.switch;
    ports_list = add_ports_to_ports_list ifc.switch ifc.ports s.ports_list;
  }

  -- A round of the loop over the `ipmi` entries.
  unfoldable pub check_phyintf_ipmi : Text → Checked → PhyIfc → Checked
  check_phyintf_ipmi ntmpl_lbl s ifc = record {
    exc = s.exc ++ validate_switch_defined ntmpl_lbl ifc.switch;
    ports_list = add_ports_to_ports_list ifc.switch ifc.ports s.ports_list;
  }

  -- The loops over one node template.
  unfoldable pub check_ntmpl : Checked → NodeTemplate → Checked
  check_ntmpl s ntmpl =
      foldl (check_phyintf_ipmi ntmpl.label)
        (foldl (check_phyintf ntmpl.label) (foldl (check_phyintf ntmpl.label) s ntmpl.data')
          ntmpl.pxe)
        ntmpl.ipmi

  -- `_validate_physical_interfaces`: what it adds to `self.exc`.
  unfoldable pub validate_physical_interfaces : List NodeTemplate → List Complaint
  validate_physical_interfaces node_templates =
      let s = foldl check_ntmpl (record { exc = []; ports_list = [] }) node_templates in
      s.exc ++ duplicate_complaints (keys s.ports_list) s.ports_list
