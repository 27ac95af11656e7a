-- ===== src/Threads/Limit/Runs.antt =====
-- Runs of the operations of project2/proc.c.
use ele3021_os.Common.{ℕ, ◌≡◌, Bool, Option, some, subst}
use ele3021_os.Mlfq.State.{Result, ok}
use ele3021_os.Threads.State.{Chan, Kernel, wakeup1, sleep}
use ele3021_os.Threads.Process.{growproc, fork, cleanforexec, exit, wait, kill, scheduler, yield}
use ele3021_os.Threads.Thread.{thread_create, thread_exit, thread_join, setmemorylimit}
use ele3021_os.Threads.Limit.Keeping.{
  wakeup1-Keeps, sleep-Keeps, cleanforexec-Keeps, exit-Keeps, wait-Keeps, thread_join-Keeps,
  kill-Keeps, scheduler-Keeps, yield-Keeps, thread_exit-Keeps,
}
use ele3021_os.Threads.Limit.Setting.{
  Limited, Keeps-Limited, Leaves, growproc-Leaves, fork-Limited, setmemorylimit-Limited,
}
use ele3021_os.Threads.Limit.Creating.{thread_create-Leaves}

-- One call, by whatever process or thread, that does not panic and that no other call interrupts.
-- `thread_create` is called by a thread whose main thread is its own main thread.
pub data Step (k : Kernel) : Kernel → Type 0 where
  grows :
      (room : Bool) (me n : ℕ) (b : Bool) (k' : Kernel)
      → growproc room me n k ≡ ok (b, k')
      → Step k k'
  forks : (page pgdir : Option ℕ) (me : ℕ) → Step k ((fork page pgdir me k).1)
  creates :
      (page : Option ℕ) (room copied : Bool) (entry arg me : ℕ) (r : Option ℕ) (k' : Kernel)
      → ((m : ℕ) → (k.proc me).mainthread ≡ some m → (k.proc m).mainthread ≡ some m)
      → thread_create page room copied entry arg me k ≡ ok (r, k')
      → Step k k'
  limits : (pid limit : ℕ) → Step k ((setmemorylimit pid limit k).1)
  exits : (me : ℕ) (k' : Kernel) → exit me k ≡ ok k' → Step k k'
  cleans : (me : ℕ) → Step k (cleanforexec me k)
  waits : (me : ℕ) → Step k ((wait me k).1)
  kills : (pid : ℕ) → Step k ((kill pid k).1)
  schedules : (p : ℕ) → Step k ((scheduler p k).1)
  yields : (me : ℕ) → Step k (yield me k)
  sleeps : (me : ℕ) (chan : Chan) → Step k (sleep me chan k)
  wakes : (chan : Chan) → Step k (wakeup1 chan k)
  ends : (me retval : ℕ) (k' : Kernel) → thread_exit me retval k ≡ ok k' → Step k k'
  joins : (me thread : ℕ) → Step k ((thread_join me thread k).1)

pub data Run (k : Kernel) : Kernel → Type 0 where
  start : Run k k
  next : {k1 k2 : Kernel} → Run k k1 → Step k1 k2 → Run k k2

left {ℓ} :
    {A : Type ℓ} (r : Result (A × Kernel)) {x : A × Kernel} → r ≡ ok x → Leaves r → Limited x.1
left r e l = subst Leaves e l

Step-Limited : (k k' : Kernel) → Limited k → Step k k' → Limited k'
Step-Limited k k' h (Step.grows room me n b _ e) =
    left (growproc room me n k) e (growproc-Leaves room me n k h)
Step-Limited k k' h (Step.forks page pgdir me) = fork-Limited page pgdir me k h
Step-Limited k k' h (Step.creates page room copied entry arg me r _ own e) =
    left (thread_create page room copied entry arg me k) e
      (thread_create-Leaves page room copied entry arg me k own h)
Step-Limited k k' h (Step.limits pid limit) = setmemorylimit-Limited pid limit k h
Step-Limited k k' h (Step.exits me _ e) = Keeps-Limited k k' (exit-Keeps me k e) h
Step-Limited k k' h (Step.cleans me) =
    Keeps-Limited k (cleanforexec me k) (cleanforexec-Keeps me k) h
Step-Limited k k' h (Step.waits me) = Keeps-Limited k ((wait me k).1) (wait-Keeps me k) h
Step-Limited k k' h (Step.kills pid) = Keeps-Limited k ((kill pid k).1) (kill-Keeps pid k) h
Step-Limited k k' h (Step.schedules p) = Keeps-Limited k ((scheduler p k).1) (scheduler-Keeps p k) h
Step-Limited k k' h (Step.yields me) = Keeps-Limited k (yield me k) (yield-Keeps me k) h
Step-Limited k k' h (Step.sleeps me chan) =
    Keeps-Limited k (sleep me chan k) (sleep-Keeps me chan k) h
Step-Limited k k' h (Step.wakes chan) = Keeps-Limited k (wakeup1 chan k) (wakeup1-Keeps chan k) h
Step-Limited k k' h (Step.ends me retval _ e) =
    Keeps-Limited k k' (thread_exit-Keeps me retval k e) h
Step-Limited k k' h (Step.joins me thread) =
    Keeps-Limited k ((thread_join me thread k).1) (thread_join-Keeps me thread k) h

-- However the calls of `growproc`, `fork`, `thread_create`, `setmemorylimit`, `exit`, `cleanforexec`,
-- `wait`, `kill`, `thread_exit`, `thread_join`, the scheduler, `yield`, `sleep` and `wakeup` follow each
-- other, none interrupted by another, where each thread that calls `thread_create` has a main thread that is its own main thread, each
-- main thread's size stays within its memory limit, where it has one, if it was so at first.
pub Run-Limited : {k k' : Kernel} → Run k k' → Limited k → Limited k'
Run-Limited Run.start h = h
Run-Limited (Run.next {k1} {k2} run step) h = Step-Limited k1 k2 (Run-Limited run h) step
