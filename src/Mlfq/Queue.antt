-- ===== src/Mlfq/Queue.antt =====
-- `struct queue` of project1/proc.h and its operations in project1/proc.c.
-- A process is its index in `ptable.proc`. Each loop recurs on the rounds that are left to it.
pub mod Arrays
pub mod Refine
use ele3021_os.Common.{
  ℕ, zero, suc, ◌+◌, ◌-◌, List, Bool, ◌==◌, ltb, if◌then◌else◌, get_or, set, take,
}

-- NPROC
abbrev pub nproc : ℕ
nproc = 64

pub record Queue : Type 0 where
  pub procs : List ℕ
  pub size : ℕ
  pub timequantum : ℕ

-- what the queue stands for: the first `size` entries of its array
abbrev pub contents : Queue → List ℕ
contents q = take q.size q.procs

unfoldable pub enqueue : Queue → ℕ → Queue
enqueue q p =
    if ltb q.size nproc then record q { procs = set q.procs q.size p; size = q.size + 1 } else q

-- `procs[i] = procs[i+1]` for `n` rounds from `i` on
unfoldable pub shift_down : List ℕ → ℕ → ℕ → List ℕ
shift_down procs i zero = procs
shift_down procs i (suc n) = shift_down (set procs i (get_or procs (suc i) 0)) (suc i) n

unfoldable pub dequeue : Queue → Queue
dequeue q =
    if ltb 0 q.size
    then record q { procs = shift_down q.procs 0 (q.size - 1); size = q.size - 1 }
    else q

-- the first index from `i` on, in `n` rounds, whose process has the pid
unfoldable pub find_pid : (ℕ → ℕ) → List ℕ → ℕ → ℕ → ℕ → ℕ
find_pid pid_of procs pid i zero = i
find_pid pid_of procs pid i (suc n) =
    let rest = find_pid pid_of procs pid (suc i) n in
    if pid_of (get_or procs i 0) == pid then i else rest

-- `pid_of p` is `p->pid`
unfoldable pub remove : (ℕ → ℕ) → Queue → ℕ → Queue
remove pid_of q pid =
    let i = find_pid pid_of q.procs pid 0 q.size in
    if ltb i q.size
    then record q { procs = shift_down q.procs i (q.size - 1 - i); size = q.size - 1 }
    else q

-- `procs[i] = procs[i-1]` for `i` down to 1
unfoldable pub shift_up : List ℕ → ℕ → List ℕ
shift_up procs zero = procs
shift_up procs (suc i) = shift_up (set procs (suc i) (get_or procs i 0)) i

unfoldable pub insertqueue : Queue → ℕ → Queue
insertqueue q p =
    if ltb q.size nproc
    then record q { procs = set (shift_up q.procs q.size) 0 p; size = q.size + 1 }
    else q
