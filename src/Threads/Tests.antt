-- ===== src/Threads/Tests.antt =====
-- The theorems on the threads of project2/proc.c at a concrete table.
use ele3021_os.Common.{
  ℕ, ◌+◌, ◌≡◌, ◌⊎◌, inl, inr, refl, [], ◌∷◌, true, false, none, some, arith, ◌==◌, if◌then◌else◌,
  ℕ_discrete,
}
use ele3021_os.Mlfq.State.{unused, running, sleeping, zombie, ok, panic}
use ele3021_os.Threads.State.{Proc, Kernel, no_chan, tid_chan, is_some_of, allocuvm, find_from}
use ele3021_os.Threads.Process.{growproc, exit, kill}
use ele3021_os.Threads.Thread.{
  share, over_limit, grow_stack, thread_exit, thread_join, setmemorylimit, joined,
}
use ele3021_os.Threads.Memory.{Refused, Grown, growproc-Grown}
use ele3021_os.Threads.Exit.Outcome.{Exited, exit-Exited}
use ele3021_os.Threads.Join.{JoinedBy, thread_join-thread_exit}
use ele3021_os.Threads.Limit.Setting.{Limited}
use ele3021_os.Threads.Limit.Runs.{Run, Step, Run-Limited}

-- Entry 0 is init, 1 and 2 are two threads of the process 2, the first of which joins the other, and
-- 3 is a child of the second.
abbrev threads : ℕ → Proc
threads p = record {
  sz = 12288;
  pgdir = some 7;
  kstack = some (p + 8);
  state =
      if p == 0
      then sleeping
      else if p == 1
      then sleeping
      else if p == 2
      then running
      else if p == 3
      then zombie
      else unused;
  pid = if p == 0 then 1 else if p == 1 then 2 else if p == 2 then 2 else if p == 3 then 3 else 0;
  parent = if p == 1 then some 0 else if p == 2 then some 0 else if p == 3 then some 2 else none;
  tf = record { cs = 0; ds = 0; es = 0; ss = 0; eflags = 0; esp = 0; eip = 0; eax = 0 };
  chan = if p == 1 then tid_chan 5 else no_chan;
  killed = false;
  ofile = some 4 ∷ none ∷ [];
  cwd = some 1;
  name = [];
  memorylimit = if p == 1 then 16384 else 0;
  stacksize = 1;
  mainthread = if p == 2 then some 1 else some p;
  tid = if p == 2 then 5 else 0;
  retval = 0;
}

abbrev table : Kernel
table = record {
  proc = threads;
  initproc = some 0;
  nextpid = 4;
  nexttid = 6;
  locked = false;
  calls = [];
}

exit-Exited_example :
    ((is_some_of (some 0) 2 ≡ true) × (exit 2 table ≡ panic))
    ⊎ ((k' : Kernel) × (exit 2 table ≡ ok k') × Exited 2 table k')
exit-Exited_example = exit-Exited 2 table

thread_join-thread_exit_example :
    (k1 : Kernel) × (k2 : Kernel) × (thread_exit 2 9 table ≡ ok k1)
    × (thread_join 1 5 k1 ≡ (joined 9, k2))
    × JoinedBy 2 table k2
thread_join-thread_exit_example =
    thread_join-thread_exit 2 1 9 table (omega arith) refl (λ q below. ground (arith, below))

growproc-Grown_example :
    ((growproc true 2 4096 table ≡ ok (false, record table { locked = true }))
      × Refused true 12288 16384 4096)
    ⊎ ((k' : Kernel) × (growproc true 2 4096 table ≡ ok (true, k')) × Grown true 2 1 4096 table k')
growproc-Grown_example = growproc-Grown true 2 4096 1 table refl (omega arith) (omega arith)

table-Limited : Limited table
table-Limited m h = elim (ℕ_discrete m 1) [
  | yes e ↦ inr (let t : (m == 1) ≡ true = ground arith in rw t (omega arith))
  | no ne ↦ inl (let t : (m == 1) ≡ false = ground arith in rw t refl)
]

Run-Limited_example : Limited ((setmemorylimit 2 20480 ((kill 3 table).1)).1)
Run-Limited_example =
    Run-Limited (Run.next (Run.next Run.start (Step.kills 3)) (Step.limits 2 20480)) table-Limited

-- `thread_create` of entry 2 has passed its check, and the limit is lowered to the size before the stack
-- is allocated: the size is above the limit then.
abbrev checked : Kernel
checked = share 2 1 4 ((setmemorylimit 2 65536 table).1)

abbrev lowered : Kernel
lowered = (grow_stack true 1 4 ((setmemorylimit 2 12288 checked).1)).1

late_limit :
    (over_limit 1 checked ≡ false)
    × ((lowered.proc 1).sz ≡ 20480)
    × ((lowered.proc 1).memorylimit ≡ 12288)
unfolding share over_limit grow_stack setmemorylimit allocuvm find_from
late_limit = (refl, refl, refl)
