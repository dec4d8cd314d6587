-- ===== src/Util.antt =====
-- The small helpers of internal/util.
pub mod ResourceName
pub mod Nameserver
