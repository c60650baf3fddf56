-- ===== src/Tests/SwitchPorts.antt =====
-- Two node templates with entries on two switches.
use cluster_genesis.Base.{
  ℕ, ◌≡◌, refl, ◌↔◌, true, some, List, [], ◌∷◌, nat_eq, option_eq, contains, codes, text_beq,
  text_eq,
}
use cluster_genesis.Base.Value.{port_eq, num}
use cluster_genesis.Config.Templates.SwitchPorts.{
  get_client_switch_ports, get_client_switch_ports_correct, Item, PhysicalInterfaces, is_asked,
  add_item, add_type, add_template, Any, TypeUses,
}

abbrev on_switch : ℕ → Item
on_switch port = record { switch = codes "sw"; ports = num port ∷ [] }

abbrev elsewhere : Item
elsewhere = record { switch = codes "other"; ports = num 9 ∷ [] }

abbrev templates : List PhysicalInterfaces
templates =
    ((codes "ipmi", on_switch 1 ∷ elsewhere ∷ []) ∷ (codes "pxe", on_switch 2 ∷ []) ∷ [])
    ∷ ((codes "ipmi", on_switch 3 ∷ []) ∷ [])
    ∷ []

ipmi_ports :
    get_client_switch_ports (codes "sw") (some (codes "ipmi")) templates ≡ num 1 ∷ num 3 ∷ []
unfolding get_client_switch_ports add_template add_type add_item is_asked text_beq
ipmi_ports = refl

get_client_switch_ports_correct_example :
    (contains (get_client_switch_ports (codes "sw") (some (codes "ipmi")) templates) (num 3) ≡ true)
    ↔ Any (Any (TypeUses (codes "sw") (some (codes "ipmi")) (num 3))) templates
get_client_switch_ports_correct_example =
    get_client_switch_ports_correct (codes "sw") (some (codes "ipmi")) (num 3) templates
