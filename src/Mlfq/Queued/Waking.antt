-- ===== src/Mlfq/Queued/Waking.antt =====
-- `make_runnable`, `wakeup1`, `yield` and `sleep` of project1/proc.c keep the queues scheduled.
use ele3021_os.Common.{
  ℕ, zero, suc, ◌+◌, ◌<◌, ◌≤◌, ◌≡◌, inl, inr, [], ◌∷◌, length, refl, sym, ◌∙◌, arith, ◌==◌, ltb,
  Bool, Bool-cases, true, false, ℕ_discrete, not,
}
use ele3021_os.Mlfq.Queue.{Queue, nproc, contents, enqueue}
use ele3021_os.Mlfq.Queue.Refine.{IsQueue, contents-enqueue, enqueue-IsQueue, length-contents}
use ele3021_os.Mlfq.State.{
  Proc, ProcState, runnable, sleeping, running, unused, same_state, Kernel, ok, set_proc, for_procs,
  Chan,
}
use ele3021_os.Mlfq.Sleep.{
  make_runnable, wake_one, wakeup1, sleeps_on, leave, sched, holds_lock, yield, sleep,
}
use ele3021_os.Mlfq.Queued.Count.{one_if, count, count-append, length_lt}
use ele3021_os.Mlfq.Queued.{is_runnable, IsScheduled}

-- in the table, and not free
abbrev pub is_live : Proc → Bool
is_live r = not (same_state r.state unused)

pub count_le : {k : Kernel} (w : IsScheduled k) (i q : ℕ) → i < 3 → count q (contents (k.l i)) ≤ 1
count_le {k} w i q h = ground (arith, w.queued q i h)

pub unused-idle : (s : ProcState) → same_state s unused ≡ true → same_state s runnable ≡ false
unused-idle unused h = refl
unused-idle ProcState.embryo h = refl
unused-idle sleeping h = refl
unused-idle runnable h = sym h
unused-idle running h = refl
unused-idle ProcState.zombie h = refl

-- There is room in the queue for a process that is not runnable.
pub room :
    {k : Kernel} (w : IsScheduled k) (p i : ℕ)
    → i < 3
    → is_runnable (k.proc p) ≡ false
    → p < nproc
    → (k.l i).size < nproc
room {k} w p i h idle lt =
    let len : length (contents (k.l i)) < nproc =
      length_lt (contents (k.l i)) p nproc lt (ground (arith, w.queued p i h))
        (λ q. count_le w i q h)
        (λ q ge.
          ground (arith, w.queued q i h, unused-idle ((k.proc q).state) (w.in_table q ge))) in
    omega (arith, length-contents (w.valid i h), len)

pub count-enqueue :
    {q : Queue} (v : IsQueue q) (p x : ℕ)
    → q.size < nproc
    → count x (contents (enqueue q p)) ≡ count x (contents q) + one_if p x
count-enqueue {q} v p x h =
    let t : ltb q.size nproc ≡ true = ground arith in
    let one : count x (p ∷ []) ≡ one_if p x = unfold count in omega arith in
    rw (contents-enqueue v p, t) (count-append x (contents q) (p ∷ []) ∙ omega (arith, one))

-- `make_runnable` of a process that is not runnable yet keeps the queues scheduled.
pub make_runnable-IsScheduled :
    {k : Kernel} (p : ℕ)
    → IsScheduled k
    → p < nproc
    → is_live (k.proc p) ≡ true
    → is_runnable (k.proc p) ≡ false
    → IsScheduled (make_runnable p k)
unfolding make_runnable
make_runnable-IsScheduled {k} p w lt live idle =
    let lev : ℕ = (k.proc p).level in
    let has_room : (k.l lev).size < nproc = room w p lev (w.levels p) idle lt in
    let live' : same_state ((k.proc p).state) unused ≡ false = ground arith in
    record {
      valid = λ i h. elim (ℕ_discrete lev i) [
        | yes e ↦
            let t : (lev == i) ≡ true = ground arith in
            rw t (enqueue-IsQueue p (w.valid lev (w.levels p)))
        | no ne ↦ let t : (lev == i) ≡ false = ground arith in rw t (w.valid i h)
      ];
      queued = λ q i h. elim (ℕ_discrete lev i) [
        | no ne ↦ let t : (lev == i) ≡ false = ground arith in rw t (w.queued q i h ∙ ground arith)
        | yes e ↦
            let t : (lev == i) ≡ true = ground arith in
            rw t (
              count-enqueue (w.valid lev (w.levels p)) p q has_room
              ∙ ground (arith, w.queued q lev (w.levels p)))
      ];
      levels = λ q. ground (arith, w.levels q);
      in_table = λ q ge. ground (arith, w.in_table q ge);
      pids = λ q r lq lr e. w.pids q r (ground arith) (ground arith) (ground arith);
    }

pub asleep :
    (s : ProcState)
    → same_state s sleeping ≡ true
    → (same_state s runnable ≡ false) × (same_state s unused ≡ false)
asleep sleeping h = (refl, refl)
asleep unused h = (refl, sym h)
asleep ProcState.embryo h = (refl, refl)
asleep runnable h = (sym h, refl)
asleep running h = (refl, refl)
asleep ProcState.zombie h = (refl, refl)

on_cpu :
    (s : ProcState)
    → same_state s running ≡ true
    → (same_state s runnable ≡ false) × (same_state s unused ≡ false)
on_cpu sleeping h = (refl, refl)
on_cpu unused h = (refl, sym h)
on_cpu ProcState.embryo h = (refl, refl)
on_cpu runnable h = (sym h, refl)
on_cpu running h = (refl, refl)
on_cpu ProcState.zombie h = (refl, refl)

wake_one-IsScheduled :
    {k : Kernel} (chan : Chan) (p : ℕ) → IsScheduled k → p < nproc → IsScheduled (wake_one chan p k)
unfolding wake_one
wake_one-IsScheduled {k} chan p w lt = elim (Bool-cases (sleeps_on chan (k.proc p))) [
  | inr awake ↦ rw awake w
  | inl sleeps ↦
      let (idle, live) = asleep ((k.proc p).state) (ground arith) in
      rw sleeps (make_runnable-IsScheduled p w lt (ground arith) idle)
]

for_procs-IsScheduled :
    (chan : Chan) (n p : ℕ) {k : Kernel}
    → p + n ≤ nproc
    → IsScheduled k
    → IsScheduled (for_procs (wake_one chan) p n k)
unfolding for_procs
for_procs-IsScheduled chan zero p h w = w
for_procs-IsScheduled chan (suc n) p h w =
    for_procs-IsScheduled chan n (suc p) (omega arith) (wake_one-IsScheduled chan p w (omega arith))

-- Waking the sleepers on a channel keeps every process in the queue of its level once if it is
-- runnable, and else in none; there is always room for those that wake.
pub wakeup1-IsScheduled : {k : Kernel} (chan : Chan) → IsScheduled k → IsScheduled (wakeup1 chan k)
unfolding wakeup1
wakeup1-IsScheduled chan w = for_procs-IsScheduled chan nproc 0 (omega arith) w

leave-IsScheduled : {k : Kernel} (cpu : ℕ) → IsScheduled k → IsScheduled (leave cpu k)
unfolding leave
leave-IsScheduled cpu w = record {
  valid = w.valid;
  queued = w.queued;
  levels = w.levels;
  in_table = w.in_table;
  pids = w.pids;
}

-- A change of a process that is runnable neither before nor after it.
pub set_proc-IsScheduled :
    {k : Kernel} (p : ℕ) (r : Proc)
    → IsScheduled k
    → is_live (k.proc p) ≡ true
    → is_live r ≡ true
    → is_runnable (k.proc p) ≡ false
    → is_runnable r ≡ false
    → r.pid ≡ (k.proc p).pid
    → r.level < 3
    → IsScheduled (set_proc k p r)
set_proc-IsScheduled {k} p r w live live' idle idle' pid lev = record {
  valid = w.valid;
  queued = λ q i h. w.queued q i h ∙ ground arith;
  levels = λ q. ground (arith, w.levels q);
  in_table = λ q ge. ground (arith, w.in_table q ge);
  pids = λ q s lq ls e. w.pids q s (ground arith) (ground arith) (ground arith);
}

-- `yield` of a running process does not panic, and keeps the queues scheduled: every process is in the
-- queue of its level once if it is runnable, and else in none.
pub yield-IsScheduled :
    {k : Kernel} (cpu me : ℕ)
    → IsScheduled k
    → me < nproc
    → same_state (k.proc me).state running ≡ true
    → (k' : Kernel) × (yield cpu me k ≡ ok k') × IsScheduled k'
unfolding yield sched
yield-IsScheduled {k} cpu me w lt runs = elim (Bool-cases (holds_lock me k)) [
  | inl locked ↦ (k, rw locked refl, w)
  | inr free ↦
      let (idle, live) = on_cpu ((k.proc me).state) runs in
      let stopped : same_state ((make_runnable me k).proc me).state running ≡ false =
        unfold make_runnable in ground arith in
      (
        leave cpu (make_runnable me k),
        rw (free, stopped) refl,
        leave-IsScheduled cpu (make_runnable-IsScheduled me w lt (ground arith) idle),
      )
]

-- `sleep` of a running process reaches the scheduler, and keeps the queues scheduled: every process
-- is in the queue of its level once if it is runnable, and else in none.
pub sleep-IsScheduled :
    {k : Kernel} (cpu me : ℕ) (chan : Chan)
    → IsScheduled k
    → same_state (k.proc me).state running ≡ true
    → (k' : Kernel) × (sleep cpu me chan k ≡ ok k') × IsScheduled k'
unfolding sleep sched
sleep-IsScheduled {k} cpu me chan w runs =
    let (idle, live) = on_cpu ((k.proc me).state) runs in
    let r : Proc = record (k.proc me) { chan = chan; state = sleeping } in
    let stopped : same_state ((set_proc k me r).proc me).state running ≡ false = ground arith in
    (
      leave cpu (set_proc k me r),
      rw stopped refl,
      leave-IsScheduled cpu
          (set_proc-IsScheduled me r w (ground arith) refl idle refl refl (w.levels me)),
    )
