-- ===== src/Mlfq/Boost/Contents.antt =====
-- What `priorityboosting` of project1/proc.c does to the queues and to the processes.
use ele3021_os.Common.{
  ℕ, zero, suc, ◌+◌, ◌-◌, ◌/◌, ◌≤◌, ◌<◌, ◌≡◌, ◌≢◌, refl, sym, ap, ap₂, subst, ◌∙◌, [], ◌∷◌, ◌++◌,
  append-nil, append_assoc, arith, ltb, if◌then◌else◌, get_or, take, drop, Bool-cases, inl, inr,
  ltb→lt, lt→ltb,
}
use ele3021_os.Mlfq.Queue.{Queue, nproc, contents, dequeue, enqueue}
use ele3021_os.Mlfq.Queue.Arrays.{erase_at}
use ele3021_os.Mlfq.Queue.Refine.{
  IsQueue, contents-enqueue, contents-dequeue, contents-head, enqueue-IsQueue, dequeue-IsQueue,
  size-dequeue, size-enqueue,
}
use ele3021_os.Mlfq.State.{Kernel}
use ele3021_os.Mlfq.Boost.{boost_front, boost_loop, boost_level, unlock_boosted, priorityboosting}

module _ (i : ℕ) (pos : 0 < i) (k : Kernel) where
  boost_front-l :
      ((boost_front i k).l 0 ≡ enqueue (k.l 0) (get_or (k.l i).procs 0 0))
      × ((boost_front i k).l i ≡ dequeue (k.l i))
  unfolding boost_front
  boost_front-l = ground arith

  boost_front-l_ne : (j : ℕ) → 0 < j → i ≢ j → (boost_front i k).l j ≡ k.l j
  unfolding boost_front
  boost_front-l_ne j h h' = ground arith

-- After `r` rounds on queue `i` its first `r` processes stand behind those of queue 0.
record Moved (i r : ℕ) (k k' : Kernel) : Type 0 where
  top_valid : IsQueue (k'.l 0)
  low_valid : IsQueue (k'.l i)
  top : contents (k'.l 0) ≡ contents (k.l 0) ++ take r (contents (k.l i))
  low : contents (k'.l i) ≡ drop r (contents (k.l i))
  top_size : (k'.l 0).size ≡ (k.l 0).size + r
  others : (j : ℕ) → 0 < j → i ≢ j → k'.l j ≡ k.l j

Moved-zero : (i : ℕ) (k : Kernel) → IsQueue (k.l 0) → IsQueue (k.l i) → Moved i 0 k k
Moved-zero i k v w = record {
  top_valid = v;
  low_valid = w;
  top = sym (append-nil (contents (k.l 0)));
  low = refl;
  top_size = omega arith;
  others = λ j h h'. refl;
}

module _ (i : ℕ) (pos : 0 < i) (k : Kernel) (v : IsQueue (k.l 0)) (w : IsQueue (k.l i))
    (fits : (k.l 0).size + (k.l i).size ≤ nproc) (more : 0 < (k.l i).size) where
  -- one round, and the facts about what follows it
  front : ℕ
  front = get_or (k.l i).procs 0 0

  step_top : contents ((boost_front i k).l 0) ≡ contents (k.l 0) ++ (front ∷ [])
  unfolding front
  step_top =
      ap contents (boost_front-l i pos k).0
      ∙ (contents-enqueue v front
          ∙ ap (λ b. if b then contents (k.l 0) ++ (front ∷ []) else contents (k.l 0))
              (lt→ltb _ _ (omega arith)))

  step_low : contents ((boost_front i k).l i) ≡ erase_at (contents (k.l i)) 0
  step_low = ap contents (boost_front-l i pos k).1 ∙ contents-dequeue w

  step_valid : IsQueue ((boost_front i k).l 0) × IsQueue ((boost_front i k).l i)
  unfolding front
  step_valid = (
    rw (boost_front-l i pos k).0 (enqueue-IsQueue front v),
    rw (boost_front-l i pos k).1 (dequeue-IsQueue w),
  )

  step_sizes :
      (((boost_front i k).l 0).size ≡ (k.l 0).size + 1)
      × (((boost_front i k).l i).size ≡ (k.l i).size - 1)
  unfolding front
  step_sizes = (
    rw (boost_front-l i pos k).0 (size-enqueue (k.l 0) front (omega arith)),
    rw (boost_front-l i pos k).1 (size-dequeue (k.l i)),
  )

  Moved-suc : (r : ℕ) (k' : Kernel) → Moved i r (boost_front i k) k' → Moved i (suc r) k k'
  unfolding front
  Moved-suc r k' m = record {
    top_valid = m.top_valid;
    low_valid = m.low_valid;
    top =
        m.top
        ∙ (ap₂ (λ a b. a ++ take r b) step_top step_low
            ∙ (append_assoc (contents (k.l 0)) (front ∷ []) (take r (erase_at (contents (k.l i)) 0))
                ∙ ap (λ b. contents (k.l 0) ++ take (suc r) b) (sym (contents-head w more))));
    low = m.low ∙ (ap (drop r) step_low ∙ ap (drop (suc r)) (sym (contents-head w more)));
    top_size = omega (arith, m.top_size, step_sizes);
    others = λ j h h'. m.others j h h' ∙ boost_front-l_ne i pos k j h h';
  }

module _ (i : ℕ) (pos : 0 < i) where
  boost_loop-Moved :
      (fuel s : ℕ) (k : Kernel)
      → IsQueue (k.l 0)
      → IsQueue (k.l i)
      → (k.l 0).size + (k.l i).size ≤ nproc
      → (k.l i).size ≤ fuel + s
      → Moved i (((k.l i).size + 1 - s) / 2) k (boost_loop fuel i s k)
  unfolding boost_loop
  boost_loop-Moved zero s k v w fits enough =
      subst (λ r. Moved i r k k) (omega arith) (Moved-zero i k v w)
  boost_loop-Moved (suc fuel) s k v w fits enough = elim (Bool-cases (ltb s (k.l i).size)) [
    | inl more ↦
        let lt : s < (k.l i).size = ltb→lt _ _ more in
        let left : 0 < (k.l i).size = omega arith in
        let sizes = step_sizes i pos k v w fits left in
        let valid = step_valid i pos k v w fits left in
        rw more (
          subst (λ r. Moved i r k (boost_loop fuel i (suc s) (boost_front i k)))
            (omega (arith, sizes))
            (Moved-suc i pos k v w fits left _ _ (
              boost_loop-Moved fuel (suc s) (boost_front i k) valid.0 valid.1 (omega (arith, sizes))
                (omega (arith, sizes)))))
    | inr done ↦ rw done (subst (λ r. Moved i r k k) (ground arith) (Moved-zero i k v w))
  ]

boost_loop-zero : (fuel s : ℕ) (k : Kernel) → (boost_loop fuel 0 s k).l ≡ k.l
unfolding boost_loop
boost_loop-zero zero s k = refl
boost_loop-zero (suc fuel) s k = elim (Bool-cases (ltb s (k.l 0).size)) [
  | inl more ↦ rw more (boost_loop-zero fuel (suc s) (boost_front 0 k) ∙ front_same)
  | inr done ↦ rw done refl
]
  where
    front_same : (boost_front 0 k).l ≡ k.l
    front_same = unfold boost_front in refl

-- The three queues are well formed, and hold no more than the process table.
pub record AreQueues (k : Kernel) : Type 0 where
  pub zeroth : IsQueue (k.l 0)
  pub first : IsQueue (k.l 1)
  pub second : IsQueue (k.l 2)
  pub total : (k.l 0).size + (k.l 1).size + (k.l 2).size ≤ nproc

unlock_boosted-l : (k : Kernel) → (unlock_boosted k).l ≡ k.l
unfolding unlock_boosted
unlock_boosted-l k = ground arith

-- how many of `n` processes leave a queue that is boosted
abbrev pub leaving : ℕ → ℕ
leaving n = (n + 1) / 2

boost_level-Moved :
    (i : ℕ) (k : Kernel)
    → 0 < i
    → IsQueue (k.l 0)
    → IsQueue (k.l i)
    → (k.l 0).size + (k.l i).size ≤ nproc
    → Moved i (leaving (k.l i).size) k (boost_level i k)
unfolding boost_level
boost_level-Moved i k pos v w fits =
    subst (λ r. Moved i r k (boost_loop (k.l i).size i 0 k)) (omega arith)
      (boost_loop-Moved i pos (k.l i).size 0 k v w fits (omega arith))

priorityboosting-l :
    (k : Kernel) → (priorityboosting k).l ≡ (boost_level 2 (boost_level 1 (boost_level 0 k))).l
unfolding priorityboosting
priorityboosting-l k = unlock_boosted-l (boost_level 2 (boost_level 1 (boost_level 0 k)))

boost_level-zero : (k : Kernel) → (boost_level 0 k).l ≡ k.l
unfolding boost_level
boost_level-zero k = boost_loop-zero (k.l 0).size 0 k

-- The contents of the queues `l`, after the queues were `old`.
abbrev Halved : (ℕ → Queue) → (ℕ → Queue) → Type 0
Halved old l =
    (contents (l 0)
      ≡ (contents (old 0) ++ take (leaving (old 1).size) (contents (old 1)))
        ++ take (leaving (old 2).size) (contents (old 2)))
    × (contents (l 1) ≡ drop (leaving (old 1).size) (contents (old 1)))
    × (contents (l 2) ≡ drop (leaving (old 2).size) (contents (old 2)))

boost_both : (k : Kernel) → AreQueues k → Halved k.l (boost_level 2 (boost_level 1 k)).l
boost_both k q = (
  m2.top ∙ ap₂ (λ a b. a ++ take (leaving b.size) (contents b)) m1.top l2,
  ap contents (m2.others 1 (omega arith) (λ e. absurd (omega arith))) ∙ m1.low,
  m2.low ∙ ap (λ b. drop (leaving b.size) (contents b)) l2,
)
  where
    m1 : Moved 1 (leaving (k.l 1).size) k (boost_level 1 k)
    m1 = boost_level-Moved 1 k (omega arith) q.zeroth q.first (omega (arith, q.total))

    l2 : (boost_level 1 k).l 2 ≡ k.l 2
    l2 = m1.others 2 (omega arith) (λ e. absurd (omega arith))

    fits : ((boost_level 1 k).l 0).size + (k.l 2).size ≤ nproc
    fits = omega (arith, m1.top_size, q.total)

    m2 :
        Moved 2
          (leaving ((boost_level 1 k).l 2).size)
          (boost_level 1 k)
          (boost_level 2 (boost_level 1 k))
    m2 =
        boost_level-Moved 2 (boost_level 1 k) (omega arith) m1.top_valid (rw l2 q.second)
          (rw l2 fits)

-- Boosting moves the front half (rounded up) of L1 and then that of L2 behind the processes of L0,
-- in order; the rest of L1 and of L2 stays where it is.
pub priorityboosting-contents :
    {k : Kernel}
    → AreQueues k
    → (contents ((priorityboosting k).l 0)
        ≡ (contents (k.l 0) ++ take (leaving (k.l 1).size) (contents (k.l 1)))
          ++ take (leaving (k.l 2).size) (contents (k.l 2)))
      × (contents ((priorityboosting k).l 1) ≡ drop (leaving (k.l 1).size) (contents (k.l 1)))
      × (contents ((priorityboosting k).l 2) ≡ drop (leaving (k.l 2).size) (contents (k.l 2)))
priorityboosting-contents {k} q =
    subst (λ l. Halved l (priorityboosting k).l) (boost_level-zero k)
      (subst (λ l. Halved (boost_level 0 k).l l) (sym (priorityboosting-l k))
        (boost_both (boost_level 0 k) start))
  where
    start : AreQueues (boost_level 0 k)
    start = record {
      zeroth = rw boost_level-zero q.zeroth;
      first = rw boost_level-zero q.first;
      second = rw boost_level-zero q.second;
      total = rw boost_level-zero q.total;
    }
