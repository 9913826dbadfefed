-- ===== src/Tokenbucket.antt =====
-- The package tokenbucket: a token bucket in the process, and one in Redis.
pub mod Clock
pub mod Script
pub mod Memory
pub mod Redis
pub mod Agreement
pub mod Bounds
pub mod Burst
mod Tests
