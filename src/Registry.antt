-- ===== src/Registry.antt =====
-- internal/registrydata: what the operator keeps of the answers of domain registries
pub mod Cache
pub mod CacheSafe
pub mod Limiter
pub mod LimiterSafe
pub mod LimiterBlock
