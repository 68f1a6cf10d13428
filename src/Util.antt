-- ===== src/Util.antt =====
-- The package util, and what Go itself gives the other packages: errors, panics, calls.
pub mod Clock
pub mod Errors
pub mod Semaphore
pub mod ContextUtil
