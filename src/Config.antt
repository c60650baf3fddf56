-- ===== src/Config.antt =====
-- scripts/python/lib/config.py: the tree that the YAML loader gives, and how its parts are read.
pub mod Access
pub mod Globals
pub mod Masks
pub mod Members
pub mod Racks
pub mod Deployer
pub mod Switches
pub mod Templates
