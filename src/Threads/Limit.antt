-- ===== src/Threads/Limit.antt =====
-- The memory limits of project2/proc.c.
pub mod Keeping
pub mod Setting
pub mod Creating
pub mod Runs
