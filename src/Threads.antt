-- ===== src/Threads.antt =====
-- The threads package, threads/.
pub mod SubHub
pub mod Group
