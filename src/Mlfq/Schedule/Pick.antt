-- ===== src/Mlfq/Schedule/Pick.antt =====
-- Which process `mlfqscheduler` of project1/proc.c chooses, and what it charges the process.
use ele3021_os.Common.{
  ℕ, zero, suc, ◌+◌, ◌-◌, ◌*◌, ◌≤◌, ◌<◌, ◌≡◌, ◌⊎◌, inl, inr, refl, sym, ap, ◌∙◌, subst, List, [],
  ◌∷◌, ◌++◌, append-nil, append_assoc, Option, none, some, arith, ◌==◌, ltb, if◌then◌else◌, get_or,
  take, length, All, All-append, All-snoc, Bool-cases, ltb→lt, ◌&&◌, dec_lt,
}
use ele3021_os.Mlfq.Queue.{contents}
use ele3021_os.Mlfq.Queue.Arrays.{erase_at}
use ele3021_os.Mlfq.Queue.Refine.{IsQueue, contents-head}
use ele3021_os.Mlfq.State.{Proc, Kernel}
use ele3021_os.Mlfq.Schedule.{best_from, pick, charge}

-- `b` has the least priority value in the list, and stands before all that share it.
abbrev pub FirstMin : (ℕ → ℕ) → List ℕ → ℕ → Type 0
FirstMin priority_of xs b =
    (ys : List ℕ) × (zs : List ℕ) × (xs ≡ ys ++ (b ∷ zs))
    × All (λ y. priority_of b < priority_of y) ys
    × All (λ z. priority_of b ≤ priority_of z) zs

All-lt_trans :
    (f : ℕ → ℕ) (a b : ℕ) (xs : List ℕ) → a < b → All (λ y. b ≤ f y) xs → All (λ y. a < f y) xs
All-lt_trans f a b [] h all = tt
All-lt_trans f a b (x ∷ xs) h all =
    let first : b ≤ f x = all.0 in (omega arith, All-lt_trans f a b xs h all.1)

All-le_of_lt : (f : ℕ → ℕ) (b : ℕ) (xs : List ℕ) → All (λ y. b < f y) xs → All (λ y. b ≤ f y) xs
All-le_of_lt f b [] all = tt
All-le_of_lt f b (x ∷ xs) all =
    let first : b < f x = all.0 in (omega arith, All-le_of_lt f b xs all.1)

module _ (f : ℕ → ℕ) where
  FirstMin-lt :
      (xs : List ℕ) (b q : ℕ) → FirstMin f xs b → f q < f b → FirstMin f (xs ++ (q ∷ [])) q
  FirstMin-lt xs b q (ys, zs, e, before, after) h = (xs, [], refl, rw e all_before, tt)
    where
      all_before : All (λ y. f q < f y) (ys ++ (b ∷ zs))
      all_before =
          All-append _ ys (b ∷ zs)
            (All-lt_trans f (f q) (f b) ys h (All-le_of_lt f (f b) ys before))
            (h, All-lt_trans f (f q) (f b) zs h after)

  FirstMin-ge :
      (xs : List ℕ) (b q : ℕ) → FirstMin f xs b → f b ≤ f q → FirstMin f (xs ++ (q ∷ [])) b
  FirstMin-ge xs b q (ys, zs, e, before, after) h = (
    ys,
    zs ++ (q ∷ []),
    ap (λ r. r ++ (q ∷ [])) e ∙ append_assoc ys (b ∷ zs) (q ∷ []),
    before,
    All-snoc _ zs q after h,
  )

  -- the loop of the code, over the entries themselves
  best : ℕ → List ℕ → ℕ
  best p [] = p
  best p (q ∷ qs) = best (if ltb (f q) (f p) then q else p) qs

  best-FirstMin : (qs xs : List ℕ) (b : ℕ) → FirstMin f xs b → FirstMin f (xs ++ qs) (best b qs)
  unfolding best
  best-FirstMin [] xs b m = subst (λ r. FirstMin f r b) (sym (append-nil xs)) m
  best-FirstMin (q ∷ qs) xs b m =
      subst (λ r. FirstMin f r (best (if ltb (f q) (f b) then q else b) qs))
        (append_assoc xs (q ∷ []) qs)
        (elim (Bool-cases (ltb (f q) (f b))) [
          | inl less ↦
              rw less (best-FirstMin qs (xs ++ (q ∷ [])) q (FirstMin-lt xs b q m (ltb→lt _ _ less)))
          | inr not_less ↦
              rw not_less
                (best-FirstMin qs (xs ++ (q ∷ [])) b (FirstMin-ge xs b q m (ground arith)))
        ])

  best_from-cons :
      (x : ℕ) (xs : List ℕ) (i n p : ℕ) → best_from f (x ∷ xs) (suc i) n p ≡ best_from f xs i n p
  unfolding best_from
  best_from-cons x xs i zero p = refl
  best_from-cons x xs i (suc n) p = best_from-cons x xs (suc i) n _

  best_from-best :
      (xs : List ℕ) (n p : ℕ) → n ≤ length xs → best_from f xs 0 n p ≡ best p (take n xs)
  unfolding best_from best
  best_from-best xs zero p h = refl
  best_from-best [] (suc n) p h = absurd (omega arith)
  best_from-best (x ∷ xs) (suc n) p h =
      best_from-cons x xs 0 n _ ∙ best_from-best xs n _ (omega arith)

  -- The choice in L2, from a queue that is not empty.
  best_from-FirstMin :
      (xs : List ℕ) (n : ℕ)
      → 0 < n
      → n ≤ length xs
      → FirstMin f (take n xs) (best_from f xs 1 (n - 1) (get_or xs 0 0))
  best_from-FirstMin [] n h h' = absurd (omega arith)
  best_from-FirstMin (x ∷ xs) zero h h' = absurd (omega arith)
  best_from-FirstMin (x ∷ xs) (suc n) h h' =
      let e : suc n - 1 ≡ n = omega arith in
      rw (e, best_from-cons x xs 0 n x, best_from-best xs n x (omega arith))
        (best-FirstMin (take n xs) (x ∷ []) x ([], [], refl, tt, tt))

-- Whom the scheduler must choose: the front of L0, else the front of L1, else from L2 the first of
-- those with the least priority value, and nobody only if all three are empty.
abbrev pub Chosen : Kernel → Option ℕ → Type 0
Chosen k none = ((k.l 0).size ≡ 0) × ((k.l 1).size ≡ 0) × ((k.l 2).size ≡ 0)
Chosen k (some p) =
    ((0 < (k.l 0).size) × (contents (k.l 0) ≡ p ∷ erase_at (contents (k.l 0)) 0))
    ⊎ (((k.l 0).size ≡ 0)
        × (0 < (k.l 1).size)
        × (contents (k.l 1) ≡ p ∷ erase_at (contents (k.l 1)) 0))
    ⊎ (((k.l 0).size ≡ 0)
        × ((k.l 1).size ≡ 0)
        × FirstMin (λ q. (k.proc q).priority) (contents (k.l 2)) p)

-- The three queues are well formed, and the front of each is at its level.
pub record HaveFronts (k : Kernel) : Type 0 where
  pub valid : (i : ℕ) → i < 3 → IsQueue (k.l i)
  pub front_level :
      (i : ℕ) → i < 3 → 0 < (k.l i).size → (k.proc (get_or (k.l i).procs 0 0)).level ≡ i

module _ {k : Kernel} (w : HaveFronts k) where
  front : ℕ → ℕ
  front i = get_or (k.l i).procs 0 0

  pick-zeroth : 0 < (k.l 0).size → pick k ≡ some (front 0)
  unfolding pick front
  pick-zeroth h = ground (arith, w.front_level 0 (omega arith) h)

  pick-first : (k.l 0).size ≡ 0 → 0 < (k.l 1).size → pick k ≡ some (front 1)
  unfolding pick front
  pick-first z h = ground (arith, w.front_level 1 (omega arith) h)

  pick-second :
      (k.l 0).size ≡ 0
      → (k.l 1).size ≡ 0
      → 0 < (k.l 2).size
      → pick k
        ≡ some (best_from (λ q. (k.proc q).priority) (k.l 2).procs 1 ((k.l 2).size - 1) (front 2))
  unfolding pick front
  pick-second z z' h = ground (arith, w.front_level 2 (omega arith) h)

  pick-nobody : (k.l 0).size ≡ 0 → (k.l 1).size ≡ 0 → (k.l 2).size ≡ 0 → pick k ≡ none
  unfolding pick
  pick-nobody z z' z'' = ground arith

  -- Where the queues are well formed and the front process of each is at its level, the scheduler
  -- chooses the front of L0, else the front of L1, else from L2 the first of those with the least
  -- priority value, and nobody only if all three are empty.
  pub pick-Chosen : Chosen k (pick k)
  unfolding front
  pick-Chosen = elim (dec_lt 0 (k.l 0).size) [
    | yes h ↦ rw (pick-zeroth h) (inl (h, contents-head (w.valid 0 (omega arith)) h))
    | no h ↦ elim (dec_lt 0 (k.l 1).size) [
      | yes h' ↦
          rw (pick-first (omega arith) h')
            (inr (inl (omega arith, h', contents-head (w.valid 1 (omega arith)) h')))
      | no h' ↦ elim (dec_lt 0 (k.l 2).size) [
        | yes h'' ↦ rw (pick-second (omega arith) (omega arith) h'') (
            inr (
              inr (
                omega arith,
                omega arith,
                best_from-FirstMin (λ q. (k.proc q).priority) (k.l 2).procs (k.l 2).size h''
                    (omega
                      (arith, (w.valid 2 (omega arith)).room, (w.valid 2 (omega arith)).bounded)),
              )))
        | no h'' ↦
            rw (pick-nobody (omega arith) (omega arith) (omega arith))
              (omega arith, omega arith, omega arith)
      ]
    ]
  ]

-- Charging a process with a tick keeps the used time below the quantum of its level (4, 6 or 8
-- ticks). The level rises, by one, exactly when the quantum of L0 or L1 is used up, and the priority
-- value falls, by one, exactly when that of L2 is and it is not 0 yet.
pub charge_bounds :
    (p : Proc)
    → p.level ≤ 2
    → p.usedtime < 2 * p.level + 4
    → let p' = charge (λ i. 2 * i + 4) p in
      (p'.usedtime < 2 * p'.level + 4)
      × (p'.level
          ≡ (if (p.usedtime + 1 == 2 * p.level + 4) && ltb p.level 2 then p.level + 1 else p.level))
      × (p'.priority ≡ (
          if (p.usedtime + 1 == 2 * p.level + 4) && (p.level == 2)
          then p.priority - 1
          else p.priority))
      × (p'.state ≡ p.state)
      × (p'.pid ≡ p.pid)
unfolding charge
charge_bounds p h u = ground arith
