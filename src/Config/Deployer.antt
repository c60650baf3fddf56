-- ===== src/Config/Deployer.antt =====
-- scripts/python/lib/config.py: the `deployer` section.
pub mod Mgmt
pub mod Client
