-- ===== src/Mlfq/Queued/Round.antt =====
-- A round of `mlfqscheduler` of project1/proc.c keeps the queues scheduled.
use ele3021_os.Common.{
  ℕ, ◌+◌, ◌<◌, ◌≡◌, ◌≢◌, inl, inr, [], refl, ap, sym, subst, ◌∙◌, arith, ◌==◌, if◌then◌else◌,
  update, update_self, update_ne, Option-cases, true, ℕ_discrete, none, some,
}
use ele3021_os.Mlfq.Queue.{Queue, contents}
use ele3021_os.Mlfq.Queue.Refine.{}
use ele3021_os.Mlfq.State.{Proc, running, Kernel, switchuvm, call, set_proc}
use ele3021_os.Mlfq.Schedule.{pick, take_out, charge, run_proc, mlfqscheduler}
use ele3021_os.Mlfq.Schedule.Pick.{Chosen, pick-Chosen}
use ele3021_os.Mlfq.Queued.Count.{one_if, count}
use ele3021_os.Mlfq.Queued.{is_runnable, IsScheduled}
use ele3021_os.Mlfq.Queued.Leaving.{
  Stands, HasLeft, in_queue, IsScheduled-HaveFronts, Chosen-Stands, runnable-live,
  HasLeft-IsScheduled,
}
use ele3021_os.Mlfq.Queued.Taking.{CanTake, Takes, take_out-Takes}

charge-keeps :
    (quantum : ℕ → ℕ) (r : Proc)
    → r.level < 3
    → ((charge quantum r).state ≡ r.state)
      × ((charge quantum r).pid ≡ r.pid)
      × ((charge quantum r).level < 3)
unfolding charge
charge-keeps quantum r h = ground arith

-- the kernel in which `run_proc` takes the process out of its queue
abbrev starting : ℕ → ℕ → Kernel → Kernel
starting cpu p k =
    let k1 = call (switchuvm p) (record k { running_on = update k.running_on cpu (some p) }) in
    set_proc k1 p (record (k1.proc p) { state = running })

module _ {k : Kernel} (w : IsScheduled k) (p : ℕ) (st : Stands k p) (cpu : ℕ) where
  start : Kernel
  start = starting cpu p k

  start_pid : (q : ℕ) → (start.proc q).pid ≡ (k.proc q).pid
  unfolding start
  start_pid q = ground arith

  start_level : (start.proc p).level ≡ (k.proc p).level
  unfolding start
  start_level = ground arith

  runs : is_runnable (k.proc p) ≡ true
  runs = (in_queue w p (k.proc p).level st.at_level st.is_there).0

  start-CanTake : CanTake start p
  start-CanTake = record {
    queues = unfold start in w.valid;
    place = record {
      at_level = rw start_level st.at_level;
      is_there = rw start_level (unfold start in st.is_there);
      in_front = rw start_level (unfold start in st.in_front);
    };
    alone = λ x h e.
        let there : is_runnable (k.proc x) ≡ true =
          (in_queue w x 2 (omega arith) (unfold start in h)).0 in
        w.pids x p (runnable-live ((k.proc x).state) there) (runnable-live ((k.proc p).state) runs)
          (sym (start_pid x) ∙ (e ∙ start_pid p));
  }

  start_state : (start.proc p).state ≡ running
  unfolding start
  start_state = ground arith

  start_others : (q : ℕ) → p ≢ q → start.proc q ≡ k.proc q
  unfolding start
  start_others q ne = update_ne k.proc p _ q ne

  taken : Kernel
  taken = take_out p start

  taken-Takes : Takes start p taken
  unfolding taken
  taken-Takes = take_out-Takes p start-CanTake

  taken_proc : (q : ℕ) → taken.proc q ≡ start.proc q
  taken_proc q = ap (λ f. f q) taken-Takes.same_procs

  charged : Kernel
  charged = set_proc taken p (charge (λ i. (taken.l i).timequantum) (taken.proc p))

  charged_proc : charged.proc p ≡ charge (λ i. (taken.l i).timequantum) (start.proc p)
  unfolding charged
  charged_proc =
      update_self taken.proc p _ ∙ ap (charge (λ i. (taken.l i).timequantum)) (taken_proc p)

  charged-HasLeft : HasLeft k p charged
  charged-HasLeft =
      let lev : (start.proc p).level < 3 = rw start_level (w.levels p) in
      let (state, pid, level) = charge-keeps (λ i. (taken.l i).timequantum) (start.proc p) lev in
      let s : (charged.proc p).state ≡ running =
        ap (λ r. r.state) charged_proc ∙ (state ∙ start_state) in
      record {
        others = λ q ne.
            unfold charged in update_ne taken.proc p _ q ne ∙ (taken_proc q ∙ start_others q ne);
        idle = rw s refl;
        live = rw s refl;
        same_pid = ap (λ r. r.pid) charged_proc ∙ (pid ∙ start_pid p);
        level = rw charged_proc level;
        valid = unfold charged in taken-Takes.queues;
        left = λ q i h.
            unfold charged start in
            subst
              (λ j.
                count q (contents (taken.l i)) + (if i == j then one_if p q else 0)
                ≡ count q (contents (k.l i)))
              start_level (taken-Takes.removed q i h);
      }

  run_proc-IsScheduled : IsScheduled (run_proc cpu p k)
  unfolding run_proc charged taken start
  run_proc-IsScheduled = HasLeft-IsScheduled p w runs charged-HasLeft

picked-Stands : {k : Kernel} (w : IsScheduled k) (p : ℕ) → pick k ≡ some p → Stands k p
picked-Stands {k} w p e =
    Chosen-Stands w p (subst (Chosen k) e (pick-Chosen (IsScheduled-HaveFronts w)))

-- A round of the scheduler keeps every process in the queue of its level once if it is runnable, and
-- else in none: the chosen process leaves its queue.
pub mlfqscheduler-IsScheduled :
    {k : Kernel} (cpu : ℕ) → IsScheduled k → IsScheduled (mlfqscheduler cpu k)
unfolding mlfqscheduler
mlfqscheduler-IsScheduled {k} cpu w =
    let idle : Kernel = record k { running_on = update k.running_on cpu none } in
    let w' : IsScheduled idle = record {
      valid = w.valid;
      queued = w.queued;
      levels = w.levels;
      in_table = w.in_table;
      pids = w.pids;
    } in
    elim (Option-cases (pick idle)) [
      | inl e ↦ rw (mlfqscheduler, e) w'
      | inr (p, e) ↦ rw (mlfqscheduler, e) (run_proc-IsScheduled w' p (picked-Stands w' p e) cpu)
    ]

contents-zero : (q : Queue) → q.size ≡ 0 → contents q ≡ []
contents-zero q h = rw h refl

-- Where every process is in the queue of its level once if it is runnable and else in none, the
-- scheduler finds a runnable process whenever there is one.
pub pick-runnable :
    {k : Kernel} (p : ℕ)
    → IsScheduled k
    → is_runnable (k.proc p) ≡ true
    → (q : ℕ) × (pick k ≡ some q) × (is_runnable (k.proc q) ≡ true)
pick-runnable {k} p w ready = elim (Option-cases (pick k)) [
  | inr (q, e) ↦
      let st : Stands k q = picked-Stands w q e in
      (q, e, (in_queue w q (k.proc q).level st.at_level st.is_there).0)
  | inl e ↦
      let (z0, z1, z2) = subst (Chosen k) e (pick-Chosen (IsScheduled-HaveFronts w)) in
      let lev : ℕ = (k.proc p).level in
      let lt : lev < 3 = w.levels p in
      let z : (k.l lev).size ≡ 0 = elim (ℕ_discrete lev 0) [
        | yes l0 ↦ rw l0 z0
        | no n0 ↦ elim (ℕ_discrete lev 1) [
          | yes l1 ↦ rw l1 z1
          | no n1 ↦ let l2 : lev ≡ 2 = omega arith in rw l2 z2
        ]
      ] in
      let c : count p (contents (k.l lev)) ≡ 0 =
        rw (contents-zero (k.l lev) z) (unfold count in refl) in
      ground (arith, w.queued p lev lt, c)
]
