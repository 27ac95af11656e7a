-- ===== src/Mlfq/Queue/Refine.antt =====
-- The array queues behave as lists: what each operation does to the contents.
use ele3021_os.Common.{
  ℕ, zero, suc, ◌+◌, ◌-◌, ◌≤◌, ◌<◌, ◌≡◌, refl, ap, ◌∙◌, sym, List, [], ◌∷◌, ◌++◌, arith, ltb,
  if◌then◌else◌, get_or, take, length, length-set, length-take, Bool-cases, inl, inr, ltb→lt,
}
use native.Mathlib.Numerals.{add-one}
use ele3021_os.Mlfq.Queue.{
  Queue, nproc, contents, enqueue, shift_down, dequeue, find_pid, remove, shift_up, insertqueue,
}
use ele3021_os.Mlfq.Queue.Arrays.{
  erase_at, erase_pid, take-set, shift_down_lem, erase_at-find_pid, erase_at_ge, shift_up_lem,
  take-take-append, length-shift_down, length-shift_up,
}

-- `procs` has room for one entry more than there are processes.
pub record IsQueue (q : Queue) : Type 0 where
  pub room : length q.procs ≡ nproc + 1
  pub bounded : q.size ≤ nproc

module _ {q : Queue} (v : IsQueue q) where
  -- `enqueue` appends the process while there is room, and else does nothing.
  pub contents-enqueue :
      (p : ℕ)
      → contents (enqueue q p) ≡ (if ltb q.size nproc then contents q ++ (p ∷ []) else contents q)
  unfolding enqueue
  contents-enqueue p = elim (Bool-cases (ltb q.size nproc)) [
    | inl has_room ↦
        rw (has_room, add-one) (take-set q.procs q.size p (omega (arith, v.room, v.bounded)))
    | inr full ↦ rw full refl
  ]

  -- `dequeue` drops the front.
  pub contents-dequeue : contents (dequeue q) ≡ erase_at (contents q) 0
  unfolding dequeue
  contents-dequeue = elim (Bool-cases (ltb 0 q.size)) [
    | inl some_left ↦ rw some_left (
        ap (λ k. take (q.size - 1) (shift_down q.procs 0 k)) (omega arith)
        ∙ shift_down_lem q.procs 0 q.size (ltb→lt _ _ some_left) (omega (arith, v.room, v.bounded)))
    | inr empty ↦ rw empty (sym (erase_at_ge q.procs 0 q.size (ground arith)))
  ]

  -- `insertqueue` puts the process in front while there is room, and else does nothing.
  pub contents-insertqueue :
      (p : ℕ)
      → contents (insertqueue q p) ≡ (if ltb q.size nproc then p ∷ contents q else contents q)
  unfolding insertqueue
  contents-insertqueue p = elim (Bool-cases (ltb q.size nproc)) [
    | inl has_room ↦
        rw (has_room, add-one, shift_up_lem q.size q.procs (omega (arith, v.room, v.bounded)))
          (ap (λ r. p ∷ r) (take-take-append q.procs _ q.size (omega (arith, v.room, v.bounded))))
    | inr full ↦ rw full refl
  ]

  -- `remove` drops the first process that has the pid, and nothing where there is none.
  pub contents-remove :
      (pid_of : ℕ → ℕ) (pid : ℕ)
      → contents (remove pid_of q pid) ≡ erase_pid pid_of pid (contents q)
  unfolding remove
  contents-remove pid_of pid =
      rw (← erase_at-find_pid pid_of pid q.procs q.size (omega (arith, v.room, v.bounded)))
        (elim (Bool-cases (ltb i q.size)) [
          | inl found ↦ rw found (
              shift_down_lem q.procs i q.size (ltb→lt _ _ found) (omega (arith, v.room, v.bounded)))
          | inr missed ↦ rw missed (sym (erase_at_ge q.procs i q.size (ground arith)))
        ])
    where
      i : ℕ
      i = find_pid pid_of q.procs pid 0 q.size

-- Every operation keeps the array's length and the bound on the size.
pub enqueue-IsQueue : {q : Queue} (p : ℕ) → IsQueue q → IsQueue (enqueue q p)
unfolding enqueue
enqueue-IsQueue {q} p v = ground (arith, length-set q.procs q.size p)

pub dequeue-IsQueue : {q : Queue} → IsQueue q → IsQueue (dequeue q)
unfolding dequeue
dequeue-IsQueue {q} v = ground (arith, length-shift_down q.procs 0 (q.size - 1))

pub insertqueue-IsQueue : {q : Queue} (p : ℕ) → IsQueue q → IsQueue (insertqueue q p)
unfolding insertqueue
insertqueue-IsQueue {q} p v =
    ground (arith, length-set (shift_up q.procs q.size) 0 p, length-shift_up q.procs q.size)

pub remove-IsQueue :
    {q : Queue} (pid_of : ℕ → ℕ) (pid : ℕ) → IsQueue q → IsQueue (remove pid_of q pid)
unfolding remove
remove-IsQueue {q} pid_of pid v = ground (arith, length-shift_down q.procs i (q.size - 1 - i))
  where
    i : ℕ
    i = find_pid pid_of q.procs pid 0 q.size

pub length-contents : {q : Queue} → IsQueue q → length (contents q) ≡ q.size
length-contents {q} v = omega (arith, length-take q.size q.procs, v.room, v.bounded)

take-head :
    (xs : List ℕ) (n : ℕ)
    → 0 < n
    → 0 < length xs
    → take n xs ≡ get_or xs 0 0 ∷ erase_at (take n xs) 0
take-head xs zero h h' = absurd (omega arith)
take-head [] (suc n) h h' = absurd (omega arith)
take-head (x ∷ xs) (suc n) h h' = refl

-- a queue that is not empty has its front and the rest
pub contents-head :
    {q : Queue} → IsQueue q → 0 < q.size → contents q ≡ get_or q.procs 0 0 ∷ erase_at (contents q) 0
contents-head {q} v h = take-head q.procs q.size h (omega (arith, v.room))

pub size-dequeue : (q : Queue) → (dequeue q).size ≡ q.size - 1
unfolding dequeue
size-dequeue q = ground arith

pub size-enqueue : (q : Queue) (p : ℕ) → q.size < nproc → (enqueue q p).size ≡ q.size + 1
unfolding enqueue
size-enqueue q p h = ground arith

-- On a well-formed queue the four operations act on the sequence of processes that it stands for:
-- `enqueue` appends and `insertqueue` puts in front while there are fewer than NPROC (else they do
-- nothing), `dequeue` drops the front if there is one, and `remove` drops the first process that has
-- the pid if there is one; and the queue stays well formed.
pub queue_refines :
    {q : Queue} (pid_of : ℕ → ℕ) (p pid : ℕ)
    → IsQueue q
    → (contents (enqueue q p) ≡ (if ltb q.size nproc then contents q ++ (p ∷ []) else contents q))
      × (contents (insertqueue q p) ≡ (if ltb q.size nproc then p ∷ contents q else contents q))
      × (contents (dequeue q) ≡ erase_at (contents q) 0)
      × (contents (remove pid_of q pid) ≡ erase_pid pid_of pid (contents q))
      × IsQueue (enqueue q p)
      × IsQueue (insertqueue q p)
      × IsQueue (dequeue q)
      × IsQueue (remove pid_of q pid)
queue_refines pid_of p pid v = (
  contents-enqueue v p,
  contents-insertqueue v p,
  contents-dequeue v,
  contents-remove v pid_of pid,
  enqueue-IsQueue p v,
  insertqueue-IsQueue p v,
  dequeue-IsQueue v,
  remove-IsQueue pid_of pid v,
)
