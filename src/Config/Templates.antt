-- ===== src/Config/Templates.antt =====
-- scripts/python/lib/config.py: the `node_templates` section.
pub mod Lists
pub mod Settings
pub mod Ipmi
pub mod Pxe
pub mod Data
pub mod Interfaces
pub mod SwitchPorts
pub mod Read
pub mod Ifcs
use cluster_genesis.Base.{ℕ, [], ◌∷◌, nat_eq, option_eq, Text, codes, text_eq, Result, ◌>>=◌}
use cluster_genesis.Base.Value.{Value, port_eq}
use cluster_genesis.Config.Access.{path, get_index}

-- `self.cfg.node_templates[node_template_index]`
unfoldable pub node_template : Value → ℕ → Result Value
node_template cfg node_template_index = do
  templates ← path cfg (codes "node_templates" ∷ [])
  get_index templates node_template_index

-- `node_template.physical_interfaces.<kind>[index]`
unfoldable pub physical_interface : Text → Value → ℕ → ℕ → Result Value
physical_interface kind cfg node_template_index index = do
  template ← node_template cfg node_template_index
  members ← path template (codes "physical_interfaces" ∷ kind ∷ [])
  get_index members index
