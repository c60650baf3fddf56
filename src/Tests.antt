-- ===== src/Tests.antt =====
-- The theorems at concrete inputs.
pub mod Logic
pub mod Interfaces
pub mod Inventory
pub mod Items
pub mod Reserve
pub mod Checks
pub mod Config
pub mod SwitchPorts
pub mod Validate
pub mod Device
pub mod Switch
pub mod Allowed
pub mod DataSwitch
pub mod VlanList
pub mod Yaml
pub mod Build
