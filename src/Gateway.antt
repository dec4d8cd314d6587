-- ===== src/Gateway.antt =====
-- Gateways: their listeners (internal/util/gateway).
pub mod Listeners
pub mod ListenersSafe
