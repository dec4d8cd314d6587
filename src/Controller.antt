-- ===== src/Controller.antt =====
-- internal/controller: the reconcilers.
pub mod Connector
pub mod ConnectorSafe
pub mod ConnectorReady
