-- ===== src/Backendbackoff.antt =====
-- The package backendbackoff: an admission gate for an unhealthy backend.
pub mod Config
pub mod Cooldown
pub mod Gate
pub mod Report
pub mod Invariant
pub mod Probe
pub mod Tripping
mod Tests
