-- ===== src/Threads/Exit/Killing.antt =====
-- The loop of `exit` of project2/proc.c that cleans up the other threads.
use ele3021_os.Common.{
  ℕ, ◌≡◌, [], true, false, not, ◌&&◌, Option, none, ◌==◌, ==-refl, if◌then◌else◌, update,
  update_self, refl, ap, ◌∙◌, arith, Bool-cases, inl, inr, ℕ_discrete, subst,
}
use ele3021_os.Mlfq.State.{unused, zombie, same_state}
use ele3021_os.Threads.State.{Proc, Kernel, set_proc}
use ele3021_os.Threads.Process.{cleanthread, kill_thread, kill_threads}
use ele3021_os.Threads.Loops.{Edits, for_procs-Edits, in_table}

-- an entry after its thread was cleaned up
abbrev pub cleaned : Proc → Proc
cleaned r = record r {
  kstack = none;
  pid = 0;
  tid = 0;
  parent = none;
  name = [];
  killed = false;
  state = unused;
  retval = 0;
}

pub cleanthread-proc :
    (p q : ℕ) (k : Kernel)
    → same_state (k.proc p).state zombie ≡ true
    → (cleanthread p k).proc q ≡ (if p == q then cleaned (k.proc p) else k.proc q)
unfolding cleanthread
cleanthread-proc p q k z = rw z refl

cleanthread-initproc : (p : ℕ) (k : Kernel) → (cleanthread p k).initproc ≡ k.initproc
unfolding cleanthread
cleanthread-initproc p k = elim (Bool-cases (same_state (k.proc p).state zombie)) [
  | inl z ↦ rw z refl
  | inr z ↦ rw z refl
]

-- what `exit` of `me` does to the entry `q` in its first loop
abbrev pub after_kill : ℕ → ℕ → ℕ → Proc → Proc
after_kill me pid q r = if r.pid == pid && not (q == me) then cleaned r else r

module _ (me pid : ℕ) where
  abbrev SameMe : Kernel → Type 0
  SameMe k = (k.proc me).pid ≡ pid

  kill_thread-hit :
      (p q : ℕ) (k : Kernel)
      → SameMe k
      → ((k.proc p).pid == pid && not (p == me)) ≡ true
      → (kill_thread me p k).proc q ≡ (if p == q then cleaned (k.proc p) else k.proc q)
  unfolding kill_thread
  kill_thread-hit p q k h t =
      let z : Proc = record (k.proc p) { state = zombie } in
      let at : (set_proc k p z).proc p ≡ z = update_self k.proc p z in
      let is_zombie : same_state ((set_proc k p z).proc p).state zombie ≡ true =
        ap (λ r. same_state r.state zombie) at in
      rw (h, t)
        (cleanthread-proc p q (set_proc k p z) is_zombie
          ∙ (ap (λ r. if p == q then cleaned r else update k.proc p z q) at ∙ ground arith))

  kill_thread-miss :
      (p : ℕ) (k : Kernel)
      → SameMe k
      → ((k.proc p).pid == pid && not (p == me)) ≡ false
      → kill_thread me p k ≡ k
  unfolding kill_thread
  kill_thread-miss p k h t = rw (h, t) refl

  kill_thread-proc :
      (p q : ℕ) (k : Kernel)
      → SameMe k
      → (kill_thread me p k).proc q ≡ (if p == q then after_kill me pid q (k.proc q) else k.proc q)
  kill_thread-proc p q k h = elim (Bool-cases ((k.proc p).pid == pid && not (p == me))) [
    | inl t ↦ kill_thread-hit p q k h t ∙ (elim (ℕ_discrete p q) [
      | yes e ↦
          subst
            (λ x.
              (if p == x then cleaned (k.proc p) else k.proc x)
              ≡ (if p == x then after_kill me pid x (k.proc x) else k.proc x))
            e (rw t refl)
      | no ne ↦ let s : (p == q) ≡ false = ground arith in rw s refl
    ])
    | inr t ↦ ap (λ x. x.proc q) (kill_thread-miss p k h t) ∙ (elim (ℕ_discrete p q) [
      | yes e ↦
          subst (λ x. k.proc x ≡ (if p == x then after_kill me pid x (k.proc x) else k.proc x)) e
            (let s : (p == p) ≡ true = ==-refl p in rw (s, t) refl)
      | no ne ↦ let s : (p == q) ≡ false = ground arith in rw s refl
    ])
  ]

  after_kill-me : (r : Proc) → after_kill me pid me r ≡ r
  after_kill-me r =
      let s : (me == me) ≡ true = ==-refl me in
      elim (Bool-cases (r.pid == pid)) [ inl t ↦ rw (t, s) refl | inr t ↦ rw t refl ]

  kill_thread-initproc :
      (p : ℕ) (k : Kernel) → SameMe k → (kill_thread me p k).initproc ≡ k.initproc
  unfolding kill_thread
  kill_thread-initproc p k h =
      elim (Bool-cases ((k.proc p).pid == (k.proc me).pid && not (p == me))) [
        | inl t ↦
            rw t (cleanthread-initproc p (set_proc k p (record (k.proc p) { state = zombie })))
        | inr t ↦ rw t refl
      ]

  kill_thread-Edits :
      (init : Option ℕ)
      → Edits (λ r. r) (λ k. SameMe k × (k.initproc ≡ init)) (kill_thread me) (after_kill me pid)
  kill_thread-Edits init = record {
    edit = λ p q k h. kill_thread-proc p q k h.0;
    keep = λ p k h.
        let kept : (if p == me then after_kill me pid me (k.proc me) else k.proc me) ≡ k.proc me =
          elim (Bool-cases (p == me)) [
            | inl t ↦ rw t (after_kill-me (k.proc me))
            | inr t ↦ rw t refl
          ] in
        (
          ap (λ r. r.pid) (kill_thread-proc p me k h.0 ∙ kept) ∙ h.0,
          kill_thread-initproc p k h.0 ∙ h.1,
        );
  }

pub kill_threads-proc :
    (me q : ℕ) (k : Kernel)
    → ((kill_threads me k).proc q
        ≡ (if in_table q then after_kill me ((k.proc me).pid) q (k.proc q) else k.proc q))
      × ((kill_threads me k).initproc ≡ k.initproc)
unfolding kill_threads
kill_threads-proc me q k =
    let (e, h) =
      for_procs-Edits q k (kill_thread-Edits me ((k.proc me).pid) k.initproc) (refl, refl) in
    (e, h.1)
