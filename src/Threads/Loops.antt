-- ===== src/Threads/Loops.antt =====
-- What the loops over `ptable.proc` of project2/proc.c find and change.
use ele3021_os.Common.{
  ℕ, zero, suc, ◌+◌, ◌<◌, ◌≤◌, ◌≡◌, Bool, true, false, ◌&&◌, some, ◌==◌, ==-refl, ltb, leb,
  if◌then◌else◌, refl, ◌∙◌, arith, Bool-cases, inl, inr, ℕ_discrete, subst,
}
use ele3021_os.Mlfq.Queue.{nproc}
use ele3021_os.Mlfq.State.{sleeping, runnable, same_state}
use ele3021_os.Threads.State.{
  Chan, same_chan, Proc, Kernel, find_from, find_proc, for_procs, wake_one, wakeup1,
}

-- The loop finds the only entry that passes the test.
find_from-only :
    (test : Proc → Bool) (procs : ℕ → Proc) (t p n : ℕ)
    → test (procs t) ≡ true
    → ((q : ℕ) → q < t → test (procs q) ≡ false)
    → p ≤ t
    → t < p + n
    → find_from test procs p n ≡ some t
unfolding find_from
find_from-only test procs t p zero yes_t before le lt = absurd (omega arith)
find_from-only test procs t p (suc n) yes_t before le lt = elim (ℕ_discrete p t) [
  | yes e ↦ rw (e, yes_t) refl
  | no ne ↦
      rw (before p (omega arith))
        (find_from-only test procs t (suc p) n yes_t before (omega arith) (omega arith))
]

pub find_proc-only :
    (test : Proc → Bool) (t : ℕ) (k : Kernel)
    → t < nproc
    → test (k.proc t) ≡ true
    → ((q : ℕ) → q < t → test (k.proc q) ≡ false)
    → find_proc test k ≡ some t
find_proc-only test t k lt yes_t before =
    find_from-only test k.proc t 0 nproc yes_t before (omega arith) (omega arith)

-- What the loop finds passes the test.
find_from-test :
    (test : Proc → Bool) (procs : ℕ → Proc) (p n t : ℕ)
    → find_from test procs p n ≡ some t
    → test (procs t) ≡ true
unfolding find_from
find_from-test test procs p zero t e = cc
find_from-test test procs p (suc n) t e = elim (Bool-cases (test (procs p))) [
  | inl hit ↦ let same : p ≡ t = ground (arith, e) in subst (λ x. test (procs x) ≡ true) same hit
  | inr miss ↦ find_from-test test procs (suc p) n t (rw miss at e)
]

pub find_proc-test :
    (k : Kernel) {t : ℕ} (test : Proc → Bool) → find_proc test k ≡ some t → test (k.proc t) ≡ true
find_proc-test k {t} test e = find_from-test test k.proc 0 nproc t e

-- an entry after a wakeup on a channel
abbrev pub woken : Chan → Proc → Proc
woken chan r =
    if same_state r.state sleeping && same_chan r.chan chan
    then record r { state = runnable }
    else r

-- Seen through `obs`, a body edits the entry it is at and no other, as long as `inv` holds.
pub record Edits {ℓ} {A : Type ℓ} (obs : Proc → A) (inv : Kernel → Type 0)
    (body : ℕ → Kernel → Kernel) (f : ℕ → A → A) : Type ℓ where
  pub edit :
      (p q : ℕ) (k : Kernel)
      → inv k
      → obs ((body p k).proc q) ≡ (if p == q then f q (obs (k.proc q)) else obs (k.proc q))
  pub keep : (p : ℕ) (k : Kernel) → inv k → inv (body p k)

for_procs-from {ℓ} :
    {A : Type ℓ} (obs : Proc → A) (inv : Kernel → Type 0) (body : ℕ → Kernel → Kernel)
    (f : ℕ → A → A) (p n q : ℕ) (k : Kernel)
    → Edits obs inv body f
    → inv k
    → (obs ((for_procs body p n k).proc q)
        ≡ (if leb p q && ltb q (p + n) then f q (obs (k.proc q)) else obs (k.proc q)))
      × inv (for_procs body p n k)
unfolding for_procs
for_procs-from obs inv body f p zero q k ed h =
    let out : (leb p q && ltb q (p + 0)) ≡ false = ground arith in (rw out refl, h)
for_procs-from obs inv body f p (suc n) q k ed h =
    let (ih, h') = for_procs-from obs inv body f (suc p) n q (body p k) ed (ed.keep p k h) in
    elim (ℕ_discrete p q) [
      | yes e ↦
          let here : (p == q) ≡ true = ground arith in
          let past : (leb (suc p) q && ltb q (suc p + n)) ≡ false = ground arith in
          let inside : (leb p q && ltb q (p + suc n)) ≡ true = ground arith in
          (rw inside (ih ∙ rw past (ed.edit p q k h ∙ rw here refl)), h')
      | no ne ↦
          let here : (p == q) ≡ false = ground arith in
          let same : (leb (suc p) q && ltb q (suc p + n)) ≡ (leb p q && ltb q (p + suc n)) =
            ground arith in
          let left : obs ((body p k).proc q) ≡ obs (k.proc q) = ed.edit p q k h ∙ rw here refl in
          (ih ∙ rw (same, left) refl, h')
    ]

-- in the table
abbrev pub in_table : ℕ → Bool
in_table q = leb 0 q && ltb q (0 + nproc)

pub for_procs-Edits {ℓ} :
    {A : Type ℓ} {obs : Proc → A} {inv : Kernel → Type 0} {body : ℕ → Kernel → Kernel}
    {f : ℕ → A → A} (q : ℕ) (k : Kernel)
    → Edits obs inv body f
    → inv k
    → (obs ((for_procs body 0 nproc k).proc q)
        ≡ (if in_table q then f q (obs (k.proc q)) else obs (k.proc q)))
      × inv (for_procs body 0 nproc k)
for_procs-Edits {obs} {inv} {body} {f} q k ed h = for_procs-from obs inv body f 0 nproc q k ed h

wake_one-proc :
    (chan : Chan) (p q : ℕ) (k : Kernel)
    → (wake_one chan p k).proc q ≡ (if p == q then woken chan (k.proc q) else k.proc q)
unfolding wake_one
wake_one-proc chan p q k = elim (ℕ_discrete p q) [
  | yes e ↦
      let c = λ (x : ℕ).
        (wake_one chan p k).proc x ≡ (if p == x then woken chan (k.proc x) else k.proc x) in
      let s : (p == p) ≡ true = ==-refl p in
      subst c e
        (elim (Bool-cases
          (same_state (k.proc p).state sleeping && same_chan (k.proc p).chan chan)) [
            | inl t ↦ rw (t, s) refl
            | inr t ↦ rw (t, s) refl
          ])
  | no ne ↦
      let s : (p == q) ≡ false = ground arith in
      elim (Bool-cases (same_state (k.proc p).state sleeping && same_chan (k.proc p).chan chan)) [
        | inl t ↦ rw (t, s) refl
        | inr t ↦ rw (t, s) refl
      ]
]

wake_one-Edits : (chan : Chan) → Edits (λ r. r) (λ _. Unit {0}) (wake_one chan) (λ _. woken chan)
wake_one-Edits chan = record { edit = λ p q k h. wake_one-proc chan p q k; keep = λ p k h. tt }

pub wakeup1-proc :
    (chan : Chan) (q : ℕ) (k : Kernel)
    → (wakeup1 chan k).proc q ≡ (if in_table q then woken chan (k.proc q) else k.proc q)
unfolding wakeup1
wakeup1-proc chan q k = (for_procs-Edits q k (wake_one-Edits chan) tt).0

-- what no wakeup changes
for_procs-initproc :
    (chan : Chan) (p n : ℕ) (k : Kernel)
    → ((for_procs (wake_one chan) p n k).initproc ≡ k.initproc)
      × ((for_procs (wake_one chan) p n k).calls ≡ k.calls)
unfolding for_procs
for_procs-initproc chan p zero k = (refl, refl)
for_procs-initproc chan p (suc n) k =
    let (e, e') = for_procs-initproc chan (suc p) n (wake_one chan p k) in
    let (o, o') = wake_one-initproc in (e ∙ o, e' ∙ o')
  where
    wake_one-initproc :
        ((wake_one chan p k).initproc ≡ k.initproc) × ((wake_one chan p k).calls ≡ k.calls)
    wake_one-initproc = unfold wake_one in ground arith

pub wakeup1-initproc :
    (chan : Chan) (k : Kernel)
    → ((wakeup1 chan k).initproc ≡ k.initproc) × ((wakeup1 chan k).calls ≡ k.calls)
unfolding wakeup1
wakeup1-initproc chan k = for_procs-initproc chan 0 nproc k
