-- ===== src/Validation.antt =====
-- internal/validation: what the admission webhooks refuse.
pub mod Errors
pub mod Accept
pub mod Network
pub mod Backend
pub mod Filters
pub mod Route
pub mod RouteSafe
pub mod Proxy
pub mod ProxySafe
pub mod Gateway
pub mod GatewaySafe
pub mod GatewayDefaults
pub mod Settings
pub mod SettingsSafe
pub mod TrafficPolicy
pub mod Security
pub mod SecuritySafe
