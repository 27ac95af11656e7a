-- ===== src/Mlfq/Queued/Boosting.antt =====
-- `priorityboosting` of project1/proc.c keeps the queues scheduled where nobody holds the scheduler.
use ele3021_os.Common.{
  ℕ, zero, suc, ◌+◌, ◌<◌, ◌≡◌, ◌≢◌, ◌∷◌, refl, ap, sym, ◌∙◌, arith, ◌==◌, ltb, if◌then◌else◌,
  Bool-cases, inl, inr, true, false, dec_lt, ℕ_discrete, some, get_or, Option-cases,
}
use ele3021_os.Mlfq.Queue.{nproc, contents, dequeue, enqueue}
use ele3021_os.Mlfq.Queue.Arrays.{erase_at}
use ele3021_os.Mlfq.Queue.Refine.{
  IsQueue, contents-head, contents-dequeue, dequeue-IsQueue, enqueue-IsQueue, length-contents,
}
use ele3021_os.Mlfq.State.{running, Kernel, set_proc}
use ele3021_os.Mlfq.Boost.{
  boosted, move_front, boost_front, boost_loop, boost_level, unlock_boosted, priorityboosting,
}
use ele3021_os.Mlfq.Queued.{is_runnable, queued_at, IsScheduled}
use ele3021_os.Mlfq.Queued.Count.{one_if, count, length_lt}
use ele3021_os.Mlfq.Queued.Waking.{set_proc-IsScheduled, count-enqueue, count_le, unused-idle}
use ele3021_os.Mlfq.Queued.Leaving.{in_queue, count-front}
use ele3021_os.Mlfq.Queued.Taking.{count-rest}

module _ {k : Kernel} (w : IsScheduled k) (i : ℕ) (h : i < 3) (some_left : 0 < (k.l i).size) where
  p : ℕ
  p = get_or (k.l i).procs 0 0

  first : contents (k.l i) ≡ p ∷ erase_at (contents (k.l i)) 0
  unfolding p
  first = contents-head (w.valid i h) some_left

  at_i : (is_runnable (k.proc p) ≡ true) × ((k.proc p).level ≡ i)
  at_i = in_queue w p i h (count-front p _ _ first)

  p_lt : p < nproc
  p_lt = elim (dec_lt p nproc) [
    | yes lt ↦ lt
    | no ge ↦ ground (arith, at_i.0, unused-idle ((k.proc p).state) (w.in_table p (omega arith)))
  ]

  -- the front of L0 only has its level set to what it is
  reset-IsScheduled : i ≡ 0 → IsScheduled (set_proc k p (boosted (k.proc p)))
  reset-IsScheduled z = record {
    valid = w.valid;
    queued = λ q j hj. w.queued q j hj ∙ ground (arith, at_i.1);
    levels = λ q. ground (arith, w.levels q);
    in_table = λ q ge. ground (arith, w.in_table q ge);
    pids = λ q r lq lr e. w.pids q r (ground arith) (ground arith) (ground arith);
  }

  room_0 : i ≢ 0 → (k.l 0).size < nproc
  room_0 ne =
      let len =
        length_lt (contents (k.l 0)) p nproc p_lt
          (ground (arith, at_i.1, w.queued p 0 (omega arith))) (λ q. count_le w 0 q (omega arith))
          (λ q ge. ground (
            arith,
            w.queued q 0 (omega arith),
            unused-idle ((k.proc q).state) (w.in_table q ge),
          )) in
      omega (arith, length-contents (w.valid 0 (omega arith)), len)

  moved : Kernel
  moved = move_front i p (set_proc k p (boosted (k.proc p)))

  moved_l :
      i ≢ 0
      → (j : ℕ)
      → moved.l j
        ≡ (if 0 == j then enqueue (k.l 0) p else if i == j then dequeue (k.l i) else k.l j)
  unfolding moved move_front
  moved_l ne j = let t : (i == 0) ≡ false = ground arith in rw t refl

  moved_proc : (q : ℕ) → moved.proc q ≡ (if p == q then boosted (k.proc p) else k.proc q)
  unfolding moved move_front
  moved_proc q = refl

  new_at :
      (q j : ℕ)
      → queued_at (moved.proc q) j ≡ (if p == q then one_if 0 j else queued_at (k.proc q) j)
  unfolding moved move_front
  new_at q j = ground (arith, at_i.0)

  old_at : (j : ℕ) → queued_at (k.proc p) j ≡ one_if i j
  old_at j = ground (arith, at_i.0, at_i.1)

  count-moved :
      (q : ℕ) → count q (contents (dequeue (k.l i))) + one_if p q ≡ count q (contents (k.l i))
  count-moved q =
      ap (λ xs. count q xs + one_if p q) (contents-dequeue (w.valid i h))
      ∙ count-rest p q (contents (k.l i)) (erase_at (contents (k.l i)) 0) first

  moved_queued :
      i ≢ 0 → (q j : ℕ) → j < 3 → count q (contents (moved.l j)) ≡ queued_at (moved.proc q) j
  moved_queued ne q j hj =
      let old : p ≡ q → queued_at (k.proc q) j ≡ one_if i j =
        λ e. ap (λ x. queued_at (k.proc x) j) (sym e) ∙ old_at j in
      elim (ℕ_discrete 0 j) [
        | yes z ↦
            let t : (0 == j) ≡ true = ground arith in
            let before : count q (contents (k.l 0)) ≡ queued_at (k.proc q) j =
              w.queued q 0 (omega arith) ∙ ap (queued_at (k.proc q)) z in
            rw (moved_l ne j, t)
              (count-enqueue (w.valid 0 (omega arith)) p q (room_0 ne)
                ∙ (ground (arith, before, old) ∙ sym (new_at q j)))
        | no nz ↦
            let t : (0 == j) ≡ false = ground arith in
            elim (ℕ_discrete i j) [
              | yes e ↦
                  let t' : (i == j) ≡ true = ground arith in
                  let before : count q (contents (k.l i)) ≡ queued_at (k.proc q) j =
                    w.queued q i h ∙ ap (queued_at (k.proc q)) e in
                  rw (moved_l ne j, t, t')
                    (ground (arith, count-moved q, before, old) ∙ sym (new_at q j))
              | no other ↦
                  let t' : (i == j) ≡ false = ground arith in
                  rw (moved_l ne j, t, t')
                    (w.queued q j hj ∙ (ground (arith, old) ∙ sym (new_at q j)))
            ]
      ]

  moved_valid : i ≢ 0 → (j : ℕ) → j < 3 → IsQueue (moved.l j)
  moved_valid ne j hj = rw (moved_l ne j) (elim (Bool-cases (0 == j)) [
    | inl t ↦ rw t (enqueue-IsQueue p (w.valid 0 (omega arith)))
    | inr t ↦ elim (Bool-cases (i == j)) [
      | inl t' ↦ rw (t, t') (dequeue-IsQueue (w.valid i h))
      | inr t' ↦ rw (t, t') (w.valid j hj)
    ]
  ])

  moved-IsScheduled : i ≢ 0 → IsScheduled moved
  unfolding moved move_front
  moved-IsScheduled ne = record {
    valid = moved_valid ne;
    queued = moved_queued ne;
    levels = λ q. ground (arith, w.levels q);
    in_table = λ q ge. ground (arith, w.in_table q ge);
    pids = λ q r lq lr e. w.pids q r (ground arith) (ground arith) (ground arith);
  }

  boost_front-IsScheduled : IsScheduled (boost_front i k)
  unfolding boost_front moved p
  boost_front-IsScheduled = elim (ℕ_discrete i 0) [
    | yes z ↦ let t : ltb 0 i ≡ false = ground arith in rw t (reset-IsScheduled z)
    | no ne ↦ let t : ltb 0 i ≡ true = ground arith in rw t (moved-IsScheduled ne)
  ]

boost_loop-IsScheduled :
    (fuel i s : ℕ) {k : Kernel} → i < 3 → IsScheduled k → IsScheduled (boost_loop fuel i s k)
unfolding boost_loop
boost_loop-IsScheduled zero i s h w = w
boost_loop-IsScheduled (suc fuel) i s {k} h w = elim (Bool-cases (ltb s (k.l i).size)) [
  | inl more ↦
      rw more
        (boost_loop-IsScheduled fuel i (suc s) h (boost_front-IsScheduled w i h (ground arith)))
  | inr done ↦ rw done w
]

-- Boosting a process does not touch the holder of the lock, nor any state.
boost_front-keeps :
    (i : ℕ) (k : Kernel)
    → ((boost_front i k).lockproc ≡ k.lockproc)
      × ((q : ℕ) → ((boost_front i k).proc q).state ≡ (k.proc q).state)
unfolding boost_front move_front
boost_front-keeps i k = elim (Bool-cases (ltb 0 i)) [
  | inl t ↦ rw t (refl, λ q. ground arith)
  | inr t ↦ rw t (refl, λ q. ground arith)
]

boost_loop-keeps :
    (fuel i s : ℕ) (k : Kernel)
    → ((boost_loop fuel i s k).lockproc ≡ k.lockproc)
      × ((q : ℕ) → ((boost_loop fuel i s k).proc q).state ≡ (k.proc q).state)
unfolding boost_loop
boost_loop-keeps zero i s k = (refl, λ q. refl)
boost_loop-keeps (suc fuel) i s k = elim (Bool-cases (ltb s (k.l i).size)) [
  | inl t ↦
      let (e, f) = boost_loop-keeps fuel i (suc s) (boost_front i k) in
      let (e', f') = boost_front-keeps i k in rw t (e ∙ e', λ q. f q ∙ f' q)
  | inr t ↦ rw t (refl, λ q. refl)
]

unlock_boosted-IsScheduled :
    {k : Kernel}
    → IsScheduled k
    → ((p : ℕ) → k.lockproc ≡ some p → (k.proc p).state ≡ running)
    → IsScheduled (unlock_boosted k)
unfolding unlock_boosted
unlock_boosted-IsScheduled {k} w holder = elim (Option-cases k.lockproc) [
  | inl e ↦ rw e (record {
    valid = w.valid;
    queued = w.queued;
    levels = w.levels;
    in_table = w.in_table;
    pids = w.pids;
  })
  | inr (holding, e) ↦
      let s : (k.proc holding).state ≡ running = holder holding e in
      let w' : IsScheduled (set_proc k holding (boosted (k.proc holding))) =
        set_proc-IsScheduled holding (boosted (k.proc holding)) w (rw s refl) (rw s refl)
          (rw s refl) (rw s refl) refl (omega arith) in
      rw e (record {
        valid = w'.valid;
        queued = w'.queued;
        levels = w'.levels;
        in_table = w'.in_table;
        pids = w'.pids;
      })
]

-- Where the process that holds the scheduler, if there is one, is running, boosting keeps every
-- process in the queue of its level once if it is runnable, and else in none.
pub priorityboosting-IsScheduled :
    {k : Kernel}
    → IsScheduled k
    → ((p : ℕ) → k.lockproc ≡ some p → (k.proc p).state ≡ running)
    → IsScheduled (priorityboosting k)
unfolding priorityboosting boost_level
priorityboosting-IsScheduled {k} w holder =
    let k0 : Kernel = boost_loop (k.l 0).size 0 0 k in
    let k1 : Kernel = boost_loop (k0.l 1).size 1 0 k0 in
    let k2 : Kernel = boost_loop (k1.l 2).size 2 0 k1 in
    let (e0, f0) = boost_loop-keeps (k.l 0).size 0 0 k in
    let (e1, f1) = boost_loop-keeps (k0.l 1).size 1 0 k0 in
    let (e2, f2) = boost_loop-keeps (k1.l 2).size 2 0 k1 in
    let w0 : IsScheduled k0 = boost_loop-IsScheduled (k.l 0).size 0 0 (omega arith) w in
    let w1 : IsScheduled k1 = boost_loop-IsScheduled (k0.l 1).size 1 0 (omega arith) w0 in
    let w2 : IsScheduled k2 = boost_loop-IsScheduled (k1.l 2).size 2 0 (omega arith) w1 in
    unlock_boosted-IsScheduled {k = k2} w2
      (λ p e. f2 p ∙ (f1 p ∙ (f0 p ∙ holder p (sym e0 ∙ (sym e1 ∙ (sym e2 ∙ e))))))
