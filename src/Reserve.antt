-- ===== src/Reserve.antt =====
-- scripts/python/inv_reserve_ipmi_pxe_ips.py: fixed addresses for the BMC and PXE interfaces.
pub mod Manager
pub mod Assign
pub mod Wait
