-- ===== src/Tests/Validate.antt =====
-- A node template with one data and one IPMI entry.
use cluster_genesis.Base.{
  ◌≡◌, refl, ◌↔◌, true, List, [], ◌∷◌, nat_eq, option_eq, All, Text, codes, text_beq, text_eq,
}
use cluster_genesis.Base.Value.{port_eq, null, bool, num}
use cluster_genesis.Validate.{
  PhyIfc, NodeTemplate, dupes_from, get_dupes, add_ports_to_ports_list, duplicate_complaints,
  validate_switch_defined, validate_interface_defined, validate_rename, check_phyintf,
  check_phyintf_ipmi, check_ntmpl, validate_physical_interfaces, duplicate_ports,
}
use cluster_genesis.Validate.Ports.{NoRepeat}
use cluster_genesis.Validate.Physical.{
  validate_physical_interfaces_correct, used_by_all, ntmpl_ports, IsSound,
}

abbrev data_ifc : PhyIfc
data_ifc = record {
  interface = codes "eth";
  rename = bool true;
  switch = codes "sw";
  ports = num 1 ∷ num 2 ∷ [];
}

abbrev ipmi_ifc : PhyIfc
ipmi_ifc = record { interface = []; rename = null; switch = codes "sw"; ports = num 2 ∷ [] }

abbrev templates : List NodeTemplate
templates = record { label = codes "t"; ipmi = ipmi_ifc ∷ []; pxe = []; data' = data_ifc ∷ [] } ∷ []

-- Port 2 is used by both entries.
found_twice :
    validate_physical_interfaces (codes "eth" ∷ []) (codes "sw" ∷ []) templates
    ≡ duplicate_ports (codes "sw") (num 2 ∷ []) ∷ []
unfolding validate_physical_interfaces check_ntmpl check_phyintf check_phyintf_ipmi
    validate_switch_defined validate_interface_defined validate_rename add_ports_to_ports_list
    duplicate_complaints get_dupes dupes_from text_beq
found_twice = refl

validate_physical_interfaces_correct_example :
    (validate_physical_interfaces (codes "eth" ∷ []) (codes "sw" ∷ []) templates ≡ []) ↔ (
      All (IsSound (codes "eth" ∷ []) (codes "sw" ∷ [])) templates
      × ((switch : Text) → NoRepeat (used_by_all ntmpl_ports templates switch)))
validate_physical_interfaces_correct_example =
    validate_physical_interfaces_correct (codes "eth" ∷ []) (codes "sw" ∷ []) templates
