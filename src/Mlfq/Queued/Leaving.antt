-- ===== src/Mlfq/Queued/Leaving.antt =====
-- Where a process of project1/proc.c stands in the queues, and what is left when it leaves them.
use ele3021_os.Common.{
  ℕ, ◌+◌, ◌<◌, ◌≤◌, ◌≡◌, ◌≢◌, inl, inr, List, ◌∷◌, refl, ap, sym, subst, ◌∙◌, arith, ◌==◌,
  if◌then◌else◌, true, false, ℕ_discrete, some, get_or,
}
use ele3021_os.Mlfq.Queue.{nproc, contents}
use ele3021_os.Mlfq.Queue.Arrays.{erase_at}
use ele3021_os.Mlfq.Queue.Refine.{IsQueue, contents-head}
use ele3021_os.Mlfq.State.{ProcState, runnable, running, unused, same_state, Kernel}
use ele3021_os.Mlfq.Schedule.Pick.{HaveFronts, Chosen}
use ele3021_os.Mlfq.Queued.Count.{one_if, count, count-append}
use ele3021_os.Mlfq.Queued.{is_runnable, queued_at, IsScheduled}
use ele3021_os.Mlfq.Queued.Waking.{is_live, unused-idle}

-- A process that stands in a queue is runnable, and at the level of the queue.
pub in_queue :
    {k : Kernel} (w : IsScheduled k) (p i : ℕ)
    → i < 3
    → 0 < count p (contents (k.l i))
    → (is_runnable (k.proc p) ≡ true) × ((k.proc p).level ≡ i)
in_queue {k} w p i h c = (ground (arith, w.queued p i h), ground (arith, w.queued p i h))

pub count-front : (p : ℕ) (xs ys : List ℕ) → xs ≡ p ∷ ys → 0 < count p xs
unfolding count
count-front p xs ys e = rw e (let one : one_if p p ≡ 1 = ground arith in omega arith)

pub IsScheduled-HaveFronts : {k : Kernel} → IsScheduled k → HaveFronts k
IsScheduled-HaveFronts {k} w = record {
  valid = w.valid;
  front_level = λ i h some_left.
      (in_queue w (get_or (k.l i).procs 0 0) i h
        (count-front _ _ _ (contents-head (w.valid i h) some_left))).1;
}

-- Where the chosen process stands.
pub record Stands (k : Kernel) (p : ℕ) : Type 0 where
  pub at_level : (k.proc p).level < 3
  pub is_there : 0 < count p (contents (k.l (k.proc p).level))
  pub in_front :
      (k.proc p).level ≢ 2
      → contents (k.l (k.proc p).level) ≡ p ∷ erase_at (contents (k.l (k.proc p).level)) 0

stands :
    {k : Kernel} (w : IsScheduled k) (p i : ℕ)
    → i < 3
    → 0 < count p (contents (k.l i))
    → (i ≢ 2 → contents (k.l i) ≡ p ∷ erase_at (contents (k.l i)) 0)
    → Stands k p
stands {k} w p i h c f =
    let e : i ≡ (k.proc p).level = sym ((in_queue w p i h c).1) in
    record {
      at_level = w.levels p;
      is_there = subst (λ j. 0 < count p (contents (k.l j))) e c;
      in_front = subst (λ j. j ≢ 2 → contents (k.l j) ≡ p ∷ erase_at (contents (k.l j)) 0) e f;
    }

pub Chosen-Stands : {k : Kernel} (w : IsScheduled k) (p : ℕ) → Chosen k (some p) → Stands k p
Chosen-Stands {k} w p (inl (h, e)) = stands w p 0 (omega arith) (count-front p _ _ e) (λ ne. e)
Chosen-Stands {k} w p (inr (inl (z, h, e))) =
    stands w p 1 (omega arith) (count-front p _ _ e) (λ ne. e)
Chosen-Stands {k} w p (inr (inr (z, z', (ys, zs, e, before, after)))) =
    stands w p 2 (omega arith)
      (rw e (omega (arith, count-append p ys (p ∷ zs), count-front p (p ∷ zs) zs refl)))
      (λ ne. absurd (ne refl))

-- What running process `p` leaves: all but `p` as it was, and `p` out of its queue.
pub record HasLeft (k : Kernel) (p : ℕ) (k' : Kernel) : Type 0 where
  pub others : (q : ℕ) → p ≢ q → k'.proc q ≡ k.proc q
  pub idle : is_runnable (k'.proc p) ≡ false
  pub live : is_live (k'.proc p) ≡ true
  pub same_pid : (k'.proc p).pid ≡ (k.proc p).pid
  pub level : (k'.proc p).level < 3
  pub valid : (i : ℕ) → i < 3 → IsQueue (k'.l i)
  pub left :
      (q i : ℕ)
      → i < 3
      → count q (contents (k'.l i)) + (if i == (k.proc p).level then one_if p q else 0)
        ≡ count q (contents (k.l i))

pub runnable-live : (s : ProcState) → same_state s runnable ≡ true → same_state s unused ≡ false
runnable-live runnable h = refl
runnable-live unused h = sym h
runnable-live running h = refl
runnable-live ProcState.embryo h = refl
runnable-live ProcState.sleeping h = refl
runnable-live ProcState.zombie h = refl

module _ {k k' : Kernel} (p : ℕ) (w : IsScheduled k) (runs : is_runnable (k.proc p) ≡ true)
    (g : HasLeft k p k') where
  left_queued : (q i : ℕ) → i < 3 → count q (contents (k'.l i)) ≡ queued_at (k'.proc q) i
  left_queued q i h = elim (ℕ_discrete p q) [
    | yes e ↦
        let c : count p (contents (k'.l i)) ≡ queued_at (k'.proc p) i =
          ground (arith, g.left p i h, g.idle, w.queued p i h) in
        subst (λ x. count x (contents (k'.l i)) ≡ queued_at (k'.proc x) i) e c
    | no ne ↦ rw (g.others q ne) (ground (arith, g.left q i h, w.queued q i h))
  ]

  left_live :
      (q : ℕ)
      → same_state (k'.proc q).state unused ≡ false
      → same_state (k.proc q).state unused ≡ false
  left_live q h = elim (ℕ_discrete p q) [
    | yes e ↦
        subst (λ x. same_state (k.proc x).state unused ≡ false) e
          (runnable-live ((k.proc p).state) runs)
    | no ne ↦ subst (λ r. same_state r.state unused ≡ false) (g.others q ne) h
  ]

  left_pid : (q : ℕ) → (k'.proc q).pid ≡ (k.proc q).pid
  left_pid q = elim (ℕ_discrete p q) [
    | yes e ↦ subst (λ x. (k'.proc x).pid ≡ (k.proc x).pid) e g.same_pid
    | no ne ↦ ap (λ r. r.pid) (g.others q ne)
  ]

  left_in_table : (q : ℕ) → nproc ≤ q → same_state (k'.proc q).state unused ≡ true
  left_in_table q ge = elim (ℕ_discrete p q) [
    | yes e ↦
        let gone : is_runnable (k.proc q) ≡ false =
          unused-idle ((k.proc q).state) (w.in_table q ge) in
        let here : is_runnable (k.proc q) ≡ true =
          subst (λ x. is_runnable (k.proc x) ≡ true) e runs in
        ground (arith, gone, here)
    | no ne ↦ rw (g.others q ne) (w.in_table q ge)
  ]

  pub HasLeft-IsScheduled : IsScheduled k'
  HasLeft-IsScheduled = record {
    valid = g.valid;
    queued = left_queued;
    levels = λ q. elim (ℕ_discrete p q) [
      | yes e ↦ subst (λ x. (k'.proc x).level < 3) e g.level
      | no ne ↦ rw (g.others q ne) (w.levels q)
    ];
    in_table = left_in_table;
    pids = λ q s lq ls e.
        w.pids q s (left_live q lq) (left_live s ls) (sym (left_pid q) ∙ (e ∙ left_pid s));
  }
