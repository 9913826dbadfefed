-- ===== src/Reclaim.antt =====
-- reclaim: one value per key, driven through create, sleep, wake and close by the holders that come
-- and go, and the public names under which a value is published to watchers.
pub mod Values
pub mod Aliases
pub mod Table
pub mod Open
pub mod System
mod Tests
