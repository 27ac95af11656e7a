-- ===== src/Mlfq/Queued/Runs.antt =====
-- Runs of the scheduling operations of project1/proc.c.
use ele3021_os.Common.{
  ℕ, ◌<◌, ◌≡◌, inl, inr, some, sym, ◌∙◌, arith, ◌==◌, Bool-cases, Option-cases, true, dec_lt, subst,
}
use ele3021_os.Mlfq.Queue.{nproc}
use ele3021_os.Mlfq.State.{
  sleeping, running, unused, same_state, Kernel, ok, set_proc, find_proc, Chan,
}
use ele3021_os.Mlfq.Sleep.{wakeup1, yield, sleep, kill}
use ele3021_os.Mlfq.Schedule.{mlfqscheduler}
use ele3021_os.Mlfq.Boost.{priorityboosting}
use ele3021_os.Mlfq.Queued.{IsScheduled}
use ele3021_os.Mlfq.Queued.Waking.{
  asleep, make_runnable-IsScheduled, wakeup1-IsScheduled, yield-IsScheduled, sleep-IsScheduled,
}
use ele3021_os.Mlfq.Queued.Round.{mlfqscheduler-IsScheduled}
use ele3021_os.Mlfq.Queued.Boosting.{priorityboosting-IsScheduled}

-- `p->killed = 1` moves nothing.
abbrev marked : ℕ → Kernel → Kernel
marked p k = set_proc k p (record (k.proc p) { killed = true })

marked-IsScheduled : (k : Kernel) (p : ℕ) → IsScheduled k → IsScheduled (marked p k)
marked-IsScheduled k p w = record {
  valid = w.valid;
  queued = λ q i h. w.queued q i h ∙ ground arith;
  levels = λ q. ground (arith, w.levels q);
  in_table = λ q ge. ground (arith, w.in_table q ge);
  pids = λ q s lq ls e. w.pids q s (ground arith) (ground arith) (ground arith);
}

kill-IsScheduled : (pid : ℕ) (k : Kernel) → IsScheduled k → IsScheduled ((kill pid k).1)
unfolding kill
kill-IsScheduled pid k w = elim (Option-cases (find_proc (λ p. p.pid == pid) k)) [
  | inl e ↦ rw (e, kill) w
  | inr (p, e) ↦ elim (Bool-cases (same_state (k.proc p).state sleeping)) [
    | inr awake ↦ rw (e, kill, awake) (marked-IsScheduled k p w)
    | inl sleeps ↦
        let (idle, live) = asleep ((k.proc p).state) sleeps in
        let lt : p < nproc = elim (dec_lt p nproc) [
          | yes h ↦ h
          | no ge ↦ absurd (
              let u : same_state (k.proc p).state unused ≡ true = w.in_table p (omega arith) in
              ground (arith, u, live))
        ] in
        rw (e, kill, sleeps)
          (make_runnable-IsScheduled p (marked-IsScheduled k p w) lt (ground (arith, live))
            (ground (arith, idle)))
  ]
]

-- A step of the kernel. The process that yields or sleeps is running, as is the holder of the
-- scheduler when the priorities are boosted.
pub data Step (k : Kernel) : Kernel → Type 0 where
  schedules : (cpu : ℕ) → Step k (mlfqscheduler cpu k)
  yields :
      (cpu me : ℕ) (k' : Kernel)
      → me < nproc
      → same_state (k.proc me).state running ≡ true
      → yield cpu me k ≡ ok k'
      → Step k k'
  sleeps :
      (cpu me : ℕ) (chan : Chan) (k' : Kernel)
      → same_state (k.proc me).state running ≡ true
      → sleep cpu me chan k ≡ ok k'
      → Step k k'
  wakes : (chan : Chan) → Step k (wakeup1 chan k)
  kills : (pid : ℕ) → Step k ((kill pid k).1)
  boosts :
      ((p : ℕ) → k.lockproc ≡ some p → (k.proc p).state ≡ running) → Step k (priorityboosting k)

pub data Run (k : Kernel) : Kernel → Type 0 where
  start : Run k k
  next : {k1 k2 : Kernel} → Run k k1 → Step k1 k2 → Run k k2

ok-ok : {a b : Kernel} → ok a ≡ ok b → a ≡ b
ok-ok e = cc

Step-IsScheduled : (k k' : Kernel) → IsScheduled k → Step k k' → IsScheduled k'
Step-IsScheduled k _ w (Step.schedules cpu) = mlfqscheduler-IsScheduled cpu w
Step-IsScheduled k k' w (Step.yields cpu me _ lt runs e) =
    let (k1, e1, w1) = yield-IsScheduled cpu me w lt runs in
    subst IsScheduled (ok-ok (sym e1 ∙ e)) w1
Step-IsScheduled k k' w (Step.sleeps cpu me chan _ runs e) =
    let (k1, e1, w1) = sleep-IsScheduled cpu me chan w runs in
    subst IsScheduled (ok-ok (sym e1 ∙ e)) w1
Step-IsScheduled k _ w (Step.wakes chan) = wakeup1-IsScheduled chan w
Step-IsScheduled k _ w (Step.kills pid) = kill-IsScheduled pid k w
Step-IsScheduled k _ w (Step.boosts holder) = priorityboosting-IsScheduled w holder

-- However rounds of the scheduler, `yield` and `sleep` of a running process, `wakeup`, `kill`, and the
-- boosting of priorities follow each other, where the holder of the scheduler runs when it boosts, each
-- process stays in the queue of its level once if it is runnable, and else in none.
pub Run-IsScheduled : {k k' : Kernel} → Run k k' → IsScheduled k → IsScheduled k'
Run-IsScheduled Run.start w = w
Run-IsScheduled (Run.next {k1} {k2} run step) w =
    Step-IsScheduled k1 k2 (Run-IsScheduled run w) step
