-- ===== src/Extension/Tls.antt =====
-- internal/extensionserver/mutate/tls.go
pub mod Prune
pub mod PruneSafe
