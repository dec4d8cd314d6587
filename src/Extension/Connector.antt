-- ===== src/Extension/Connector.antt =====
-- internal/extensionserver/mutate/connector.go and shared.go
pub mod Name
pub mod Clusters
pub mod Routes
pub mod First
pub mod RoutesSafe
pub mod ClustersSafe
