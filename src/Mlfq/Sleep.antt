-- ===== src/Mlfq/Sleep.antt =====
-- Giving up the CPU and waking up: `sched`, `yield`, `sleep`, `wakeup1`, `wakeup` and `kill` of
-- project1/proc.c. `sched` switches to the scheduler, which runs its lines behind `swtch`; what the
-- process does when it is scheduled again is a function of its own.
use ele3021_os.Common.{ℕ, Bool, true, false, ◌&&◌, none, some, ◌==◌, if◌then◌else◌, update}
use ele3021_os.Mlfq.Queue.{nproc, enqueue}
use ele3021_os.Mlfq.State.{
  running, runnable, sleeping, same_state, Chan, no_chan, same_chan, Proc, switchkvm, Kernel,
  Result, ok, panic, call, set_proc, set_queue, find_proc, for_procs,
}

-- `p->state = RUNNABLE; enqueue(&ptable.L[p->level], p)`
unfoldable pub make_runnable : ℕ → Kernel → Kernel
make_runnable p k =
    let lev = (k.proc p).level in
    set_queue (set_proc k p (record (k.proc p) { state = runnable })) lev (enqueue (k.l lev) p)

-- The scheduler's lines behind its `swtch`: no process is on the CPU.
unfoldable pub leave : ℕ → Kernel → Kernel
leave cpu k = let k' = call switchkvm k in record k' { running_on = update k'.running_on cpu none }

unfoldable pub sched : ℕ → ℕ → Kernel → Result Kernel
unfolding leave
sched cpu me k = if same_state (k.proc me).state running then panic else ok (leave cpu k)

-- `ptable.lockproc && ptable.lockproc->pid == p->pid`
unfoldable pub holds_lock : ℕ → Kernel → Bool
holds_lock me k = elim (k.lockproc) [ none ↦ false | some h ↦ (k.proc h).pid == (k.proc me).pid ]

unfoldable pub yield : ℕ → ℕ → Kernel → Result Kernel
unfolding make_runnable sched holds_lock
yield cpu me k = if holds_lock me k then ok k else sched cpu me (make_runnable me k)

-- up to `sched`
unfoldable pub sleep : ℕ → ℕ → Chan → Kernel → Result Kernel
unfolding sched
sleep cpu me chan k =
    sched cpu me (set_proc k me (record (k.proc me) { chan = chan; state = sleeping }))

-- behind `sched`
unfoldable pub sleep_end : ℕ → Kernel → Kernel
sleep_end me k = set_proc k me (record (k.proc me) { chan = no_chan })

abbrev pub sleeps_on : Chan → Proc → Bool
sleeps_on chan p = same_state p.state sleeping && same_chan p.chan chan

unfoldable pub wake_one : Chan → ℕ → Kernel → Kernel
unfolding make_runnable
wake_one chan p k = if sleeps_on chan (k.proc p) then make_runnable p k else k

unfoldable pub wakeup1 : Chan → Kernel → Kernel
unfolding wake_one for_procs
wakeup1 chan k = for_procs (wake_one chan) 0 nproc k

unfoldable pub wakeup : Chan → Kernel → Kernel
unfolding wakeup1
wakeup chan k = wakeup1 chan k

-- true for the result 0, false for -1
unfoldable pub kill : ℕ → Kernel → Bool × Kernel
unfolding make_runnable
kill pid k = elim (find_proc (λ p. p.pid == pid) k) [
  | none ↦ (false, k)
  | some p ↦
      let k' = set_proc k p (record (k.proc p) { killed = true }) in
      (true, if same_state (k.proc p).state sleeping then make_runnable p k' else k')
]
