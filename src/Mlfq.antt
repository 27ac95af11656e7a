-- ===== src/Mlfq.antt =====
-- project1: the multi-level feedback queue scheduler of proc.c, with the timer interrupt of trap.c.
pub mod Queue
pub mod State
pub mod Sleep
pub mod Life
pub mod Lock
pub mod Schedule
pub mod Boost
pub mod Timer
pub mod Queued
mod Tests
