-- ===== src/Services.antt =====
-- internal/serviceset: which services of a ServiceSet are applied, and at which version.
pub mod Keys
pub mod Filter
pub mod Versions
pub mod Upgrades
pub mod Deploy
pub mod Order
pub mod Fetch
pub mod Builder
pub mod Pipeline
pub mod Processor
