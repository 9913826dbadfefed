-- ===== src/Simpleredis.antt =====
-- simpleredis/: a pooled RESP client.
pub mod Errors
pub mod Resp
pub mod Config
pub mod Retry
pub mod Exec
pub mod Commands
pub mod Conn
pub mod Dial
pub mod Pool
mod Tests
