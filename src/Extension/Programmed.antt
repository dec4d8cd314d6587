-- ===== src/Extension/Programmed.antt =====
-- internal/extensionserver/server: the record of what the last build changed
-- (programmedset.go, programmedset_scan.go).
pub mod Scan
pub mod Record
pub mod Sorted
pub mod RecordSafe
