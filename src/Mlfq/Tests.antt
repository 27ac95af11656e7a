-- ===== src/Mlfq/Tests.antt =====
-- Tests of the scheduler of project1, and its theorems at concrete inputs.
use ele3021_os.Common.{
  ℕ, zero, suc, ◌+◌, ◌*◌, ◌<◌, ◌≡◌, refl, List, [], ◌∷◌, ◌++◌, false, none, some, arith, replicate,
  ◌==◌, if◌then◌else◌, leb, ltb, ◌-◌, get_or,
}
use ele3021_os.Mlfq.Queue.{Queue, contents, enqueue, dequeue, remove, insertqueue, shift_down}
use ele3021_os.Mlfq.Queue.Refine.{IsQueue, queue_refines}
use ele3021_os.Mlfq.State.{unused, runnable, no_chan, Trapframe, Proc, Kernel}
use ele3021_os.Mlfq.Schedule.{pick, charge}
use ele3021_os.Mlfq.Schedule.Pick.{HaveFronts, Chosen, pick-Chosen, charge_bounds}
use ele3021_os.Mlfq.Boost.{priorityboosting}
use ele3021_os.Mlfq.Boost.Contents.{AreQueues, priorityboosting-contents}

abbrev queue_of : List ℕ → ℕ → ℕ → Queue
queue_of ps n i = record { procs = ps ++ replicate (65 - n) 0; size = n; timequantum = 2 * i + 4 }

abbrev frame : Trapframe
frame = record { cs = 0; ds = 0; es = 0; ss = 0; eflags = 0; esp = 0; eip = 0; eax = 0 }

-- process `p` with pid `p + 1`: 0 to 2 are in L1, 3 and 4 in L2, with priorities 3 and 1
abbrev proc : ℕ → Proc
proc p = record {
  sz = 0;
  pgdir = none;
  kstack = none;
  state = if leb 5 p then unused else runnable;
  pid = if leb 5 p then 0 else p + 1;
  parent = none;
  tf = frame;
  chan = no_chan;
  killed = false;
  ofile = [];
  cwd = none;
  name = [];
  priority = if p == 4 then 1 else 3;
  usedtime = 0;
  level = if ltb p 3 then 1 else 2;
}

abbrev kernel : Kernel
kernel = record {
  proc = proc;
  lockproc = none;
  l = λ i.
      if i == 1
      then queue_of (0 ∷ 1 ∷ 2 ∷ []) 3 1
      else if i == 2
      then queue_of (3 ∷ 4 ∷ []) 2 2
      else queue_of [] 0 0;
  initproc = some 0;
  nextpid = 6;
  running_on = λ _. none;
  ticks = 0;
  mlfqticks = 99;
  calls = [];
}

-- only the processes of L2 are left
abbrev low : Kernel
low = record kernel { l = λ i. if i == 2 then queue_of (3 ∷ 4 ∷ []) 2 2 else queue_of [] 0 0 }

pick_low : pick low ≡ some 4
unfolding pick
pick_low = refl

-- Boosting leaves the last process of L1 and the last of L2 where they are.
boosted_kernel :
    (contents ((priorityboosting kernel).l 0) ≡ 0 ∷ 1 ∷ 3 ∷ [])
    × (contents ((priorityboosting kernel).l 1) ≡ 2 ∷ [])
    × (contents ((priorityboosting kernel).l 2) ≡ 4 ∷ [])
unfolding priorityboosting enqueue dequeue shift_down
boosted_kernel = (refl, refl, refl)

queue_refines_example :
    let q = queue_of (4 ∷ 5 ∷ 6 ∷ []) 3 0 in
    (contents (enqueue q 7) ≡ 4 ∷ 5 ∷ 6 ∷ 7 ∷ [])
    × (contents (insertqueue q 7) ≡ 7 ∷ 4 ∷ 5 ∷ 6 ∷ [])
    × (contents (dequeue q) ≡ 5 ∷ 6 ∷ [])
    × (contents (remove (λ p. p + 1) q 6) ≡ 4 ∷ 6 ∷ [])
    × IsQueue (enqueue q 7)
    × IsQueue (insertqueue q 7)
    × IsQueue (dequeue q)
    × IsQueue (remove (λ p. p + 1) q 6)
queue_refines_example =
    queue_refines {q = queue_of (4 ∷ 5 ∷ 6 ∷ []) 3 0} (λ p. p + 1) 7 6 (omega arith)

kernel-AreQueues : AreQueues kernel
kernel-AreQueues = omega arith

priorityboosting-contents_example :
    (contents ((priorityboosting kernel).l 0) ≡ 0 ∷ 1 ∷ 3 ∷ [])
    × (contents ((priorityboosting kernel).l 1) ≡ 2 ∷ [])
    × (contents ((priorityboosting kernel).l 2) ≡ 4 ∷ [])
priorityboosting-contents_example = priorityboosting-contents kernel-AreQueues

low-valid : (i : ℕ) → i < 3 → IsQueue (low.l i)
low-valid zero h = omega arith
low-valid (suc zero) h = omega arith
low-valid (suc (suc zero)) h = omega arith
low-valid (suc (suc (suc i))) h = absurd (omega arith)

low-front : (i : ℕ) → i < 3 → 0 < (low.l i).size → (low.proc (get_or (low.l i).procs 0 0)).level ≡ i
low-front zero h h' = absurd (omega arith)
low-front (suc zero) h h' = absurd (omega arith)
low-front (suc (suc zero)) h h' = refl
low-front (suc (suc (suc i))) h h' = absurd (omega arith)

low-HaveFronts : HaveFronts low
low-HaveFronts = record { valid = low-valid; front_level = low-front }

pick-Chosen_example : Chosen low (pick low)
pick-Chosen_example = pick-Chosen low-HaveFronts

charge_bounds_example :
    let p = record (proc 0) { level = 1; usedtime = 5 } in
    let p' = charge (λ i. 2 * i + 4) p in
    (p'.usedtime < 2 * p'.level + 4)
    × (p'.level ≡ 2)
    × (p'.priority ≡ 3)
    × (p'.state ≡ runnable)
    × (p'.pid ≡ 1)
charge_bounds_example =
    charge_bounds (record (proc 0) { level = 1; usedtime = 5 }) (omega arith) (omega arith)
