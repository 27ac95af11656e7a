-- ===== src/Mlfq/Queued/Taking.antt =====
-- `take_out`: how `mlfqscheduler` of project1/proc.c takes the chosen process out of its queue.
use ele3021_os.Common.{
  ℕ, ◌+◌, ◌<◌, ◌≡◌, List, ◌∷◌, refl, ap, sym, subst, ◌∙◌, arith, ◌==◌, if◌then◌else◌, true, false,
  ℕ_discrete,
}
use ele3021_os.Mlfq.Queue.{Queue, contents, dequeue, remove}
use ele3021_os.Mlfq.Queue.Arrays.{erase_at}
use ele3021_os.Mlfq.Queue.Refine.{
  IsQueue, contents-dequeue, contents-remove, dequeue-IsQueue, remove-IsQueue,
}
use ele3021_os.Mlfq.State.{Kernel, set_queue}
use ele3021_os.Mlfq.Schedule.{take_out}
use ele3021_os.Mlfq.Queued.Count.{one_if, count, count-erase_pid}
use ele3021_os.Mlfq.Queued.Leaving.{Stands}

-- What `take_out` needs: the process is in the queue of its level, in front unless that is L2, and
-- its pid is its own there.
pub record CanTake (k : Kernel) (p : ℕ) : Type 0 where
  pub queues : (i : ℕ) → i < 3 → IsQueue (k.l i)
  pub place : Stands k p
  pub alone : (x : ℕ) → 0 < count x (contents (k.l 2)) → (k.proc x).pid ≡ (k.proc p).pid → x ≡ p

pub record Takes (k : Kernel) (p : ℕ) (k' : Kernel) : Type 0 where
  pub queues : (i : ℕ) → i < 3 → IsQueue (k'.l i)
  pub removed :
      (q i : ℕ)
      → i < 3
      → count q (contents (k'.l i)) + (if i == (k.proc p).level then one_if p q else 0)
        ≡ count q (contents (k.l i))
  pub same_procs : k'.proc ≡ k.proc

-- only the queue of its level changes
set_queue-Takes :
    {k : Kernel} (p : ℕ) (u : Queue)
    → CanTake k p
    → IsQueue u
    → ((q : ℕ) → count q (contents u) + one_if p q ≡ count q (contents (k.l (k.proc p).level)))
    → Takes k p (set_queue k (k.proc p).level u)
set_queue-Takes {k} p u c v gone =
    let lev : ℕ = (k.proc p).level in
    record {
      queues = λ i h. elim (ℕ_discrete lev i) [
        | yes e ↦ let t : (lev == i) ≡ true = ground arith in rw t v
        | no ne ↦ let t : (lev == i) ≡ false = ground arith in rw t (c.queues i h)
      ];
      removed = λ q i h. elim (ℕ_discrete lev i) [
        | yes e ↦
            let t : (lev == i) ≡ true = ground arith in
            let t' : (i == lev) ≡ true = ground arith in
            rw (t, t') (gone q ∙ ap (λ j. count q (contents (k.l j))) e)
        | no ne ↦
            let t : (lev == i) ≡ false = ground arith in
            let t' : (i == lev) ≡ false = ground arith in rw (t, t') (omega arith)
      ];
      same_procs = refl;
    }

pub count-rest : (p q : ℕ) (xs ys : List ℕ) → xs ≡ p ∷ ys → count q ys + one_if p q ≡ count q xs
unfolding count
count-rest p q xs ys e = rw e (omega arith)

pub take_out-Takes : {k : Kernel} (p : ℕ) → CanTake k p → Takes k p (take_out p k)
unfolding take_out
take_out-Takes {k} p c = elim (ℕ_discrete (k.proc p).level 2) [
  | yes e ↦
      let t : ((k.proc p).level == 2) ≡ true = ground arith in
      let here : 0 < count p (contents (k.l 2)) =
        subst (λ j. 0 < count p (contents (k.l j))) e c.place.is_there in
      let pid_of : ℕ → ℕ = λ q. (k.proc q).pid in
      rw t (
        subst (λ j. Takes k p (set_queue k j (remove pid_of (k.l 2) (k.proc p).pid))) e
          (set_queue-Takes p (remove pid_of (k.l 2) (k.proc p).pid) c
            (remove-IsQueue pid_of (k.proc p).pid (c.queues 2 (omega arith)))
            (λ q.
              ap (λ xs. count q xs + one_if p q)
                (contents-remove (c.queues 2 (omega arith)) pid_of (k.proc p).pid)
              ∙ (count-erase_pid pid_of p q (contents (k.l 2)) c.alone here
                  ∙ ap (λ j. count q (contents (k.l j))) (sym e)))))
  | no ne ↦
      let t : ((k.proc p).level == 2) ≡ false = ground arith in
      let lev : ℕ = (k.proc p).level in
      let v : IsQueue (k.l lev) = c.queues lev c.place.at_level in
      let f : contents (k.l lev) ≡ p ∷ erase_at (contents (k.l lev)) 0 = c.place.in_front ne in
      rw t (
        set_queue-Takes p (dequeue (k.l lev)) c (dequeue-IsQueue v) (λ q.
          ap (λ xs. count q xs + one_if p q) (contents-dequeue v)
          ∙ count-rest p q (contents (k.l lev)) (erase_at (contents (k.l lev)) 0) f))
]
