-- ===== src/Mlfq/Queued.antt =====
-- The queues of project1/proc.c against the process table: every process is in the queue of its
-- level once if it is runnable, and else in none.
pub mod Count
pub mod Waking
pub mod Leaving
pub mod Taking
pub mod Round
pub mod Boosting
pub mod Runs
mod Tests
use ele3021_os.Common.{ℕ, ◌<◌, ◌≤◌, ◌≡◌, Bool, true, false, ◌&&◌, ◌==◌, if◌then◌else◌}
use ele3021_os.Mlfq.Queue.{nproc, contents}
use ele3021_os.Mlfq.Queue.Refine.{IsQueue}
use ele3021_os.Mlfq.State.{Proc, runnable, unused, same_state, Kernel}
use ele3021_os.Mlfq.Queued.Count.{count}

abbrev pub is_runnable : Proc → Bool
is_runnable p = same_state p.state runnable

abbrev pub queued_at : Proc → ℕ → ℕ
queued_at p i = if is_runnable p && (p.level == i) then 1 else 0

pub record IsScheduled (k : Kernel) : Type 0 where
  pub valid : (i : ℕ) → i < 3 → IsQueue (k.l i)
  pub queued : (p i : ℕ) → i < 3 → count p (contents (k.l i)) ≡ queued_at (k.proc p) i
  pub levels : (p : ℕ) → (k.proc p).level < 3
  pub in_table : (p : ℕ) → nproc ≤ p → same_state (k.proc p).state unused ≡ true
  pub pids :
      (p q : ℕ)
      → same_state (k.proc p).state unused ≡ false
      → same_state (k.proc q).state unused ≡ false
      → (k.proc p).pid ≡ (k.proc q).pid
      → p ≡ q
