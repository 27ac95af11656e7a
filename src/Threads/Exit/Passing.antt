-- ===== src/Threads/Exit/Passing.antt =====
-- The loop of `exit` of project2/proc.c that passes the children to init.
use ele3021_os.Common.{
  ℕ, ◌<◌, ◌≡◌, Bool, true, false, ◌&&◌, Option, ◌==◌, if◌then◌else◌, refl, sym, ap, ◌∙◌, arith,
  Bool-cases, inl, inr, ℕ_discrete,
}
use ele3021_os.Mlfq.Queue.{nproc}
use ele3021_os.Mlfq.State.{ProcState, unused, sleeping, runnable, zombie, same_state}
use ele3021_os.Threads.State.{
  Chan, same_chan, is_some_of, Proc, Kernel, set_proc, for_procs, wakeup1,
}
use ele3021_os.Threads.Process.{chan_of, pass_to_init}
use ele3021_os.Threads.Loops.{
  Edits, for_procs-Edits, in_table, woken, wakeup1-proc, wakeup1-initproc,
}

-- seen through what no wakeup changes
module _ {ℓ} {A : Type ℓ} (obs : Proc → A)
    (blind : (r : Proc)
      → same_state r.state sleeping ≡ true
      → obs (record r { state = runnable }) ≡ obs r) where
  woken-obs : (chan : Chan) (r : Proc) → obs (woken chan r) ≡ obs r
  woken-obs chan r = elim (Bool-cases (same_state r.state sleeping && same_chan r.chan chan)) [
    | inl t ↦ rw t (blind r (ground arith))
    | inr t ↦ rw t refl
  ]

  pub wakeup1-obs :
      (chan : Chan) (q : ℕ) (k : Kernel) → obs ((wakeup1 chan k).proc q) ≡ obs (k.proc q)
  wakeup1-obs chan q k = ap obs (wakeup1-proc chan q k) ∙ (elim (Bool-cases (in_table q)) [
    | inl t ↦ rw t (woken-obs chan (k.proc q))
    | inr t ↦ rw t refl
  ])

-- the parent of an entry after the children of `me` were passed on
abbrev pub after_pass : ℕ → Option ℕ → ℕ → Option ℕ → Option ℕ
after_pass me init q parent = if is_some_of parent me then init else parent

-- the kernel in which `pass_to_init` wakes init
passed : ℕ → Kernel → Kernel
passed p k = set_proc k p (record (k.proc p) { parent = k.initproc })

pass_to_init-initproc : (me p : ℕ) (k : Kernel) → (pass_to_init me p k).initproc ≡ k.initproc
unfolding pass_to_init passed
pass_to_init-initproc me p k = elim (Bool-cases (is_some_of (k.proc p).parent me)) [
  | inr t ↦ rw t refl
  | inl t ↦ elim (Bool-cases (same_state (k.proc p).state zombie)) [
    | inr z ↦ rw (t, z) refl
    | inl z ↦ rw (t, z) ((wakeup1-initproc (chan_of k.initproc) (passed p k)).0)
  ]
]

-- an entry of the table after `pass_to_init`, up to a wakeup
pass_to_init-proc {ℓ} :
    {A : Type ℓ} (obs : Proc → A)
    → ((r : Proc)
        → same_state r.state sleeping ≡ true
        → obs (record r { state = runnable }) ≡ obs r)
    → (me p q : ℕ) (k : Kernel)
    → obs ((pass_to_init me p k).proc q)
      ≡ obs (
          if p == q
          then record (k.proc p) { parent = after_pass me k.initproc p (k.proc p).parent }
          else k.proc q)
unfolding pass_to_init passed
pass_to_init-proc obs blind me p q k = elim (Bool-cases (is_some_of (k.proc p).parent me)) [
  | inr t ↦ rw t (elim (ℕ_discrete p q) [
    | yes e ↦ let s : (p == q) ≡ true = ground arith in rw s (ap (λ x. obs (k.proc x)) (sym e))
    | no ne ↦ let s : (p == q) ≡ false = ground arith in rw s refl
  ])
  | inl t ↦ elim (Bool-cases (same_state (k.proc p).state zombie)) [
    | inr z ↦ rw (t, z) refl
    | inl z ↦ rw (t, z) (wakeup1-obs obs blind (chan_of k.initproc) q (passed p k))
  ]
]

-- the loop that passes the children on, seen through `obs`
pass-Edits {ℓ} :
    {A : Type ℓ} (obs : Proc → A) (me : ℕ) (init : Option ℕ) (f : ℕ → A → A)
    → ((r : Proc)
        → same_state r.state sleeping ≡ true
        → obs (record r { state = runnable }) ≡ obs r)
    → ((p : ℕ) (r : Proc) → obs (record r { parent = after_pass me init p r.parent }) ≡ f p (obs r))
    → Edits obs (λ k. k.initproc ≡ init) (pass_to_init me) f
pass-Edits obs me init f blind edits = record {
  edit = λ p q k h. pass_to_init-proc obs blind me p q k ∙ (elim (ℕ_discrete p q) [
    | yes e ↦
        let s : (p == q) ≡ true = ground arith in
        rw (s, h) (edits p (k.proc p) ∙ ap (λ x. f x (obs (k.proc x))) e)
    | no ne ↦ let s : (p == q) ≡ false = ground arith in rw s refl
  ]);
  keep = λ p k h. pass_to_init-initproc me p k ∙ h;
}

abbrev pub is_unused : Proc → Bool
is_unused r = same_state r.state unused

pub sleeping-used : (s : ProcState) → same_state s sleeping ≡ true → false ≡ same_state s unused
sleeping-used sleeping h = refl
sleeping-used unused h = h
sleeping-used ProcState.embryo h = refl
sleeping-used runnable h = refl
sleeping-used ProcState.running h = refl
sleeping-used zombie h = refl

module _ (me q : ℕ) (k : Kernel) (lt : q < nproc) where
  abbrev pub pass_all : Kernel
  pass_all = for_procs (pass_to_init me) 0 nproc k

  q_in_table : in_table q ≡ true
  q_in_table = ground arith

  pub pass-parent : (pass_all.proc q).parent ≡ after_pass me k.initproc q (k.proc q).parent
  pass-parent =
      (for_procs-Edits q k
        (pass-Edits (λ r. r.parent) me k.initproc (after_pass me k.initproc) (λ r h. refl)
          (λ p r. refl))
        refl).0
      ∙ rw q_in_table refl

  pub pass-pid : (pass_all.proc q).pid ≡ (k.proc q).pid
  pass-pid =
      (for_procs-Edits q k
        (pass-Edits (λ r. r.pid) me k.initproc (λ _ x. x) (λ r h. refl) (λ p r. refl)) refl).0
      ∙ rw q_in_table refl

  pub pass-is_unused : is_unused (pass_all.proc q) ≡ is_unused (k.proc q)
  pass-is_unused =
      (for_procs-Edits q k
        (pass-Edits (λ r. same_state r.state unused) me k.initproc (λ _ x. x)
          (λ r h. sleeping-used r.state h) (λ p r. refl))
        refl).0
      ∙ rw q_in_table refl
