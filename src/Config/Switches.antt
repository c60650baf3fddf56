-- ===== src/Config/Switches.antt =====
-- scripts/python/lib/config.py: the `switches` section.
pub mod Mgmt
pub mod MgmtPorts
pub mod Data
pub mod DataPorts
pub mod Labels
pub mod Mlag
pub mod AccessInfo
