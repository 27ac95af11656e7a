-- ===== src/Mlfq/Queued/Tests.antt =====
-- The theorems on the queues of project1/proc.c at concrete kernels.
use ele3021_os.Common.{
  ℕ, ◌+◌, ◌≡◌, refl, List, [], ◌∷◌, true, false, none, some, arith, ◌==◌, ltb, if◌then◌else◌,
  replicate, ℕ_discrete,
}
use ele3021_os.Mlfq.Queue.{Queue, contents, dequeue, enqueue, remove, find_pid, shift_down}
use ele3021_os.Mlfq.State.{Proc, Kernel, unused, runnable, running, sleeping, no_chan, other_chan}
use ele3021_os.Mlfq.Sleep.{wakeup1, kill}
use ele3021_os.Mlfq.Schedule.{
  pick, mlfqscheduler, run_proc, take_out, charge, front_from, best_from,
}
use ele3021_os.Mlfq.Boost.{
  priorityboosting, boost_level, boost_loop, boost_front, move_front, unlock_boosted,
}
use ele3021_os.Mlfq.Queued.{is_runnable, IsScheduled}
use ele3021_os.Mlfq.Queued.Count.{count}
use ele3021_os.Mlfq.Queued.Runs.{Run, Step, Run-IsScheduled}
use ele3021_os.Mlfq.Queued.Round.{mlfqscheduler-IsScheduled, pick-runnable}
use ele3021_os.Mlfq.Queued.Boosting.{priorityboosting-IsScheduled}

-- Process 0 runs, process 1 sleeps, and process 2 is runnable at L2.
abbrev three : ℕ → Proc
three p = record {
  sz = 4096;
  pgdir = none;
  kstack = none;
  state =
      if p == 0 then running else if p == 1 then sleeping else if p == 2 then runnable else unused;
  pid = p + 1;
  parent = none;
  tf = record { cs = 0; ds = 0; es = 0; ss = 0; eflags = 0; esp = 0; eip = 0; eax = 0 };
  chan = if p == 1 then other_chan 5 else no_chan;
  killed = false;
  ofile = [];
  cwd = none;
  name = [];
  priority = 3;
  usedtime = 0;
  level = if p == 2 then 2 else 0;
}

abbrev queue_of : List ℕ → ℕ → Queue
queue_of xs n = record { procs = xs; size = n; timequantum = 4 }

abbrev three_kernel : Kernel
three_kernel = record {
  proc = three;
  lockproc = none;
  l = λ i. if i == 2 then queue_of (2 ∷ replicate 64 0) 1 else queue_of (replicate 65 0) 0;
  initproc = none;
  nextpid = 4;
  running_on = λ _. none;
  ticks = 0;
  mlfqticks = 0;
  calls = [];
}

three-IsScheduled : IsScheduled three_kernel
unfolding count
three-IsScheduled = record {
  valid = λ i h. elim (ℕ_discrete i 2) [
    | yes e ↦
        let b : (i == 2) ≡ true = ground arith in
        rw b (record { room = refl; bounded = omega arith })
    | no ne ↦
        let b : (i == 2) ≡ false = ground arith in
        rw b (record { room = refl; bounded = omega arith })
  ];
  queued = λ p i h. elim (ℕ_discrete i 2) [
    | yes e ↦ let b : (i == 2) ≡ true = ground arith in rw b (ground arith)
    | no ne ↦ let b : (i == 2) ≡ false = ground arith in rw b (ground arith)
  ];
  levels = λ p. ground arith;
  in_table = λ p ge. ground arith;
  pids = λ p q lp lq e. omega arith;
}

mlfqscheduler-IsScheduled_example : IsScheduled (mlfqscheduler 0 three_kernel)
mlfqscheduler-IsScheduled_example = mlfqscheduler-IsScheduled 0 three-IsScheduled

pick-runnable_example :
    (q : ℕ) × (pick three_kernel ≡ some q) × (is_runnable (three_kernel.proc q) ≡ true)
pick-runnable_example = pick-runnable 2 three-IsScheduled refl

Run-IsScheduled_example :
    IsScheduled
      ((kill 3 (wakeup1 (other_chan 5) (mlfqscheduler 0 (priorityboosting three_kernel)))).1)
Run-IsScheduled_example =
    Run-IsScheduled
      (Run.next
        (Run.next
          (Run.next (Run.next Run.start (Step.boosts (λ p e. absurd (ground (arith, e)))))
            (Step.schedules 0))
          (Step.wakes (other_chan 5)))
        (Step.kills 3))
      three-IsScheduled

-- Process 0, which runs, holds the scheduler.
abbrev held_kernel : Kernel
held_kernel = record three_kernel { lockproc = some 0 }

held-IsScheduled : IsScheduled held_kernel
held-IsScheduled =
    let w = three-IsScheduled in
    record {
      valid = w.valid;
      queued = w.queued;
      levels = w.levels;
      in_table = w.in_table;
      pids = w.pids;
    }

priorityboosting-IsScheduled_example : IsScheduled (priorityboosting held_kernel)
priorityboosting-IsScheduled_example =
    priorityboosting-IsScheduled held-IsScheduled
      (λ p e. let z : p ≡ 0 = ground (arith, e) in rw z refl)

-- Processes 1 and 2 are runnable in L1, and 2 holds the scheduler: it went to sleep with it, and was
-- woken up since.
abbrev woken_holder : Kernel
woken_holder = record three_kernel {
  proc = λ p. record (three p) {
    state = if p == 0 then sleeping else if ltb p 3 then runnable else unused;
    level = if p == 0 then 0 else 1;
  };
  l = λ i. if i == 1 then queue_of (1 ∷ 2 ∷ replicate 63 0) 2 else queue_of (replicate 65 0) 0;
  lockproc = some 2;
}

-- Boosting gives it level 0 but leaves it in L1, since it stands in the rear half. The second round
-- of the scheduler then runs it, and it is still in L1.
holder_stays :
    contents ((mlfqscheduler 0 (mlfqscheduler 0 (priorityboosting woken_holder))).l 1) ≡ 2 ∷ []
unfolding mlfqscheduler run_proc take_out charge pick front_from best_from dequeue remove find_pid
    shift_down priorityboosting boost_level boost_loop boost_front move_front unlock_boosted enqueue
holder_stays = refl

holder_runs :
    ((mlfqscheduler 0 (mlfqscheduler 0 (priorityboosting woken_holder))).proc 2).state ≡ running
unfolding mlfqscheduler run_proc take_out charge pick front_from best_from dequeue remove find_pid
    shift_down priorityboosting boost_level boost_loop boost_front move_front unlock_boosted enqueue
holder_runs = refl
