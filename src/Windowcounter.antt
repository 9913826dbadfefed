-- ===== src/Windowcounter.antt =====
-- The package windowcounter: hits on a key, counted in Redis in a window that slides.
pub mod Sliding
pub mod Exact
pub mod Timers
pub mod Buffer
pub mod Limiter
mod Tests
