-- ===== src/Tests.antt =====
-- Runs at concrete inputs (internal).
pub mod Samples
mod Bodies
mod Listeners
mod Routes
mod Whole
mod Cache
mod Retrigger
mod Platform
mod Validators
mod Gateways
mod Policies
mod Limits
mod Names
mod Connectors
mod Records
