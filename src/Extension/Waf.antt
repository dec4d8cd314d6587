-- ===== src/Extension/Waf.antt =====
-- internal/extensionserver/mutate/tpp.go
pub mod Listener
pub mod ListenerSafe
pub mod Routes
pub mod Marker
pub mod RoutesSafe
pub mod ConfigSafe
