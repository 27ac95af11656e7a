-- ===== src/Log/Recovery.antt =====
-- What a power failure leaves on the disk during `commit` and recovery of project3/log.c.
pub mod Contents
pub mod Install
pub mod Commit
pub mod Crash
