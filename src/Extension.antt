-- ===== src/Extension.antt =====
-- internal/extensionserver
pub mod Xds
pub mod Codec
pub mod Hcm
pub mod Index
pub mod Waf
pub mod Tls
pub mod Programmed
pub mod Connector
pub mod LocalReply
pub mod Hook
pub mod Retrigger
