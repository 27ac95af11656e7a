-- ===== src/Threads/Limit/Keeping.antt =====
-- Operations of project2/proc.c that change no size, no limit and no main thread.
use ele3021_os.Common.{
  ℕ, zero, suc, ◌≡◌, ◌≢◌, [], true, false, not, ◌&&◌, Option, none, some, is_some, ◌||◌, ◌==◌,
  if◌then◌else◌, update, update_self, update_ne, refl, sym, ap, ◌∙◌, Bool-cases, inl, inr,
  ℕ_discrete, subst, Option-cases,
}
use ele3021_os.Mlfq.Queue.{nproc}
use ele3021_os.Mlfq.State.{
  unused, sleeping, embryo, runnable, running, zombie, same_state, ok, panic,
}
use ele3021_os.Threads.State.{
  Chan, same_chan, tid_chan, proc_chan, is_some_of, Proc, Call, Kernel, set_proc, call, find_proc,
  kfree, freevm, for_procs, wake_one, wakeup1, sleep,
}
use ele3021_os.Threads.Process.{
  set_found, allocproc, cleanthread, kill_thread, kill_threads, cleanforexec, close_files, chan_of,
  pass_to_init, exit_table, exit, reap, wait, kill, scheduler, yield,
}
use ele3021_os.Threads.Exit.Killing.{cleaned}
use ele3021_os.Threads.Exit.Outcome.{close_files-proc, close_files-me}
use ele3021_os.Threads.Thread.{thread_exit, thread_join}

abbrev pub memory : Proc → Option ℕ × (ℕ × ℕ)
memory r = (r.mainthread, (r.sz, r.memorylimit))

-- no main thread, size or limit differs
abbrev pub Keeps : Kernel → Kernel → Type 0
Keeps k k' = (q : ℕ) → memory (k'.proc q) ≡ memory (k.proc q)

-- results are not confused
pub panic-ok : {A : Type 0} {a : A} → panic ≢ ok a
panic-ok e = cc

pub ok-ok : {A : Type 0} {a b : A} → ok a ≡ ok b → a ≡ b
ok-ok e = cc

module _ (k : Kernel) (p : ℕ) where
  pub set_proc-Keeps : (r : Proc) → memory r ≡ memory (k.proc p) → Keeps k (set_proc k p r)
  set_proc-Keeps r h q = elim (ℕ_discrete p q) [
    | yes e ↦
        ap (λ x. memory (update k.proc p r x)) (sym e)
        ∙ (ap memory (update_self k.proc p r) ∙ (h ∙ ap (λ x. memory (k.proc x)) e))
    | no ne ↦ ap memory (update_ne k.proc p r q ne)
  ]

  wake_one-Keeps : (chan : Chan) → Keeps k (wake_one chan p k)
  unfolding wake_one
  wake_one-Keeps chan =
      elim (Bool-cases (same_state (k.proc p).state sleeping && same_chan (k.proc p).chan chan)) [
        | inl t ↦ λ q. rw t (set_proc-Keeps (record (k.proc p) { state = runnable }) refl q)
        | inr t ↦ λ q. rw t refl
      ]

pub call-Keeps : (c : Call) (k : Kernel) → Keeps k (call c k)
call-Keeps c k q = refl

for_procs-Keeps :
    (body : ℕ → Kernel → Kernel) (p n : ℕ) (k : Kernel)
    → ((p : ℕ) (k : Kernel) → Keeps k (body p k))
    → Keeps k (for_procs body p n k)
unfolding for_procs
for_procs-Keeps body p zero k h q = refl
for_procs-Keeps body p (suc n) k h q = for_procs-Keeps body (suc p) n (body p k) h q ∙ h p k q

pub wakeup1-Keeps : (chan : Chan) (k : Kernel) → Keeps k (wakeup1 chan k)
unfolding wakeup1
wakeup1-Keeps chan k = for_procs-Keeps (wake_one chan) 0 nproc k (λ p k. wake_one-Keeps k p chan)

cleanthread-Keeps : (p : ℕ) (k : Kernel) → Keeps k (cleanthread p k)
unfolding cleanthread
cleanthread-Keeps p k = elim (Bool-cases (same_state (k.proc p).state zombie)) [
  | inr t ↦ λ q. rw t refl
  | inl t ↦ λ q. rw t (
      set_proc-Keeps (call (kfree (k.proc p).kstack) k) p (cleaned (k.proc p))
        (sym (call-Keeps (kfree (k.proc p).kstack) k p)) q
      ∙ call-Keeps (kfree (k.proc p).kstack) k q)
]

kill_thread-Keeps : (me p : ℕ) (k : Kernel) → Keeps k (kill_thread me p k)
unfolding kill_thread
kill_thread-Keeps me p k = elim (Bool-cases ((k.proc p).pid == (k.proc me).pid && not (p == me))) [
  | inr t ↦ λ q. rw t refl
  | inl t ↦ λ q. rw t (
      let z : Proc = record (k.proc p) { state = zombie } in
      cleanthread-Keeps p (set_proc k p z) q ∙ set_proc-Keeps k p z refl q)
]

kill_threads-Keeps : (me : ℕ) (k : Kernel) → Keeps k (kill_threads me k)
unfolding kill_threads
kill_threads-Keeps me k = for_procs-Keeps (kill_thread me) 0 nproc k (kill_thread-Keeps me)

pub cleanforexec-Keeps : (me : ℕ) (k : Kernel) → Keeps k (cleanforexec me k)
unfolding cleanforexec
cleanforexec-Keeps me k = elim (Bool-cases ((k.proc me).tid == 0)) [
  | inl t ↦ λ q. rw t refl
  | inr t ↦ λ q. rw t (kill_threads-Keeps me k q)
]

close_files-Keeps : (me : ℕ) (k : Kernel) → Keeps k (close_files me k)
close_files-Keeps me k q = elim (ℕ_discrete me q) [
  | yes e ↦
      subst (λ x. memory ((close_files me k).proc x) ≡ memory (k.proc x)) e
        (ap memory (close_files-me me k))
  | no ne ↦ ap memory (close_files-proc me q k ne)
]

pass_to_init-Keeps : (me p : ℕ) (k : Kernel) → Keeps k (pass_to_init me p k)
unfolding pass_to_init
pass_to_init-Keeps me p k = elim (Bool-cases (is_some_of (k.proc p).parent me)) [
  | inr t ↦ λ q. rw t refl
  | inl t ↦
      let r : Proc = record (k.proc p) { parent = k.initproc } in
      elim (Bool-cases (same_state (k.proc p).state zombie)) [
        | inr z ↦ λ q. rw (t, z) (set_proc-Keeps k p r refl q)
        | inl z ↦ λ q.
            rw (t, z)
              (wakeup1-Keeps (chan_of k.initproc) (set_proc k p r) q ∙ set_proc-Keeps k p r refl q)
      ]
]

module _ (me : ℕ) (k : Kernel) where
  -- the steps of `exit`
  abbrev alone : Kernel
  alone = kill_threads me (close_files me k)

  abbrev woke : Kernel
  woke = wakeup1 (chan_of (alone.proc me).parent) alone

  abbrev passed : Kernel
  passed = for_procs (pass_to_init me) 0 nproc woke

  exit_table-Keeps : Keeps k (exit_table me k)
  unfolding exit_table
  exit_table-Keeps q =
      set_proc-Keeps passed me (record (passed.proc me) { state = zombie }) refl q
      ∙ (for_procs-Keeps (pass_to_init me) 0 nproc woke (pass_to_init-Keeps me) q
          ∙ (wakeup1-Keeps (chan_of (alone.proc me).parent) alone q
              ∙ (kill_threads-Keeps me (close_files me k) q ∙ close_files-Keeps me k q)))

pub exit-Keeps : (me : ℕ) (k : Kernel) {k' : Kernel} → exit me k ≡ ok k' → Keeps k k'
unfolding exit
exit-Keeps me k {k'} e = elim (Bool-cases (is_some_of k.initproc me)) [
  | inl t ↦ absurd (panic-ok (rw t at e))
  | inr t ↦ λ q.
      ap (λ (x : Kernel). memory (x.proc q)) (sym (ok-ok (rw t at e))) ∙ exit_table-Keeps me k q
]

module _ (p : ℕ) (k : Kernel) where
  abbrev unstacked : Kernel
  unstacked = call (kfree (k.proc p).kstack) k

  reap-Keeps : Keeps k (reap p k)
  unfolding reap
  reap-Keeps q =
      set_proc-Keeps (call (freevm (k.proc p).pgdir) unstacked) p
        (record (k.proc p) {
          kstack = none;
          pid = 0;
          parent = none;
          name = [];
          killed = false;
          state = unused;
        })
        (sym (
          call-Keeps (freevm (k.proc p).pgdir) unstacked p
          ∙ call-Keeps (kfree (k.proc p).kstack) k p))
        q
      ∙ (call-Keeps (freevm (k.proc p).pgdir) unstacked q
          ∙ call-Keeps (kfree (k.proc p).kstack) k q)

pub sleep-Keeps : (me : ℕ) (chan : Chan) (k : Kernel) → Keeps k (sleep me chan k)
unfolding sleep
sleep-Keeps me chan k =
    set_proc-Keeps k me (record (k.proc me) { chan = chan; state = sleeping }) refl

pub wait-Keeps : (me : ℕ) (k : Kernel) → Keeps k ((wait me k).1)
unfolding wait
wait-Keeps me k q =
    elim (Option-cases (find_proc (λ p. is_some_of p.parent me && same_state p.state zombie) k)) [
      | inr (p, e) ↦ rw (e, wait) (reap-Keeps p k q)
      | inl e ↦
          elim (Bool-cases
            (not (is_some (find_proc (λ p. is_some_of p.parent me) k)) || (k.proc me).killed)) [
              | inl t ↦ rw (e, wait, t) refl
              | inr t ↦ rw (e, wait, t) (sleep-Keeps me (proc_chan me) k q)
            ]
    ]

pub thread_join-Keeps : (me thread : ℕ) (k : Kernel) → Keeps k ((thread_join me thread k).1)
unfolding thread_join
thread_join-Keeps me thread k q =
    elim (Option-cases (find_proc (λ p. p.tid == thread && same_state p.state zombie) k)) [
      | inr (p, e) ↦ rw (e, thread_join) (cleanthread-Keeps p k q)
      | inl e ↦
          elim (Bool-cases
            (not (is_some (find_proc (λ p. p.tid == thread) k)) || (k.proc me).killed)) [
              | inl t ↦ rw (e, thread_join, t) refl
              | inr t ↦ rw (e, thread_join, t) (sleep-Keeps me (tid_chan thread) k q)
            ]
    ]

pub kill-Keeps : (pid : ℕ) (k : Kernel) → Keeps k ((kill pid k).1)
unfolding kill
kill-Keeps pid k q = elim (Option-cases (find_proc (λ p. p.pid == pid) k)) [
  | inl e ↦ rw (e, kill) refl
  | inr (p, e) ↦
      rw (e, kill)
        (set_proc-Keeps k p
          (record (k.proc p) {
            killed = true;
            state = if same_state (k.proc p).state sleeping then runnable else (k.proc p).state;
          })
          refl q)
]

pub scheduler-Keeps : (p : ℕ) (k : Kernel) → Keeps k ((scheduler p k).1)
unfolding scheduler
scheduler-Keeps p k q = elim (Bool-cases (same_state (k.proc p).state runnable)) [
  | inl t ↦ rw t (set_proc-Keeps k p (record (k.proc p) { state = running }) refl q)
  | inr t ↦ rw t refl
]

pub yield-Keeps : (me : ℕ) (k : Kernel) → Keeps k (yield me k)
unfolding yield
yield-Keeps me k = set_proc-Keeps k me (record (k.proc me) { state = runnable }) refl

pub allocproc-Keeps : (page : Option ℕ) (k : Kernel) → Keeps k ((allocproc page k).1)
unfolding allocproc set_found
allocproc-Keeps page k q = elim (Option-cases (find_proc (λ p. same_state p.state unused) k)) [
  | inl e ↦ rw (e, allocproc) refl
  | inr (p, e) ↦ elim (Option-cases page) [
    | inl e' ↦
        rw (e, allocproc, e')
          (set_proc-Keeps k p (record (k.proc p) { kstack = none; state = unused }) refl q)
    | inr (s, e') ↦
        rw (e, allocproc, e')
          (set_proc-Keeps k p (record (k.proc p) { kstack = some s; state = embryo }) refl q)
  ]
]

module _ (me v : ℕ) (k : Kernel) where
  -- the steps of `thread_exit`
  abbrev valued : Kernel
  valued = set_proc (close_files me k) me (record ((close_files me k).proc me) { retval = v })

  abbrev told : Kernel
  told = wakeup1 (tid_chan (valued.proc me).tid) valued

  exited-Keeps : Keeps k (set_proc told me (record (told.proc me) { state = zombie }))
  exited-Keeps q =
      set_proc-Keeps told me (record (told.proc me) { state = zombie }) refl q
      ∙ (wakeup1-Keeps (tid_chan (valued.proc me).tid) valued q
          ∙ (set_proc-Keeps (close_files me k) me
                (record ((close_files me k).proc me) { retval = v }) refl q
              ∙ close_files-Keeps me k q))

pub thread_exit-Keeps :
    (me v : ℕ) (k : Kernel) {k' : Kernel} → thread_exit me v k ≡ ok k' → Keeps k k'
unfolding thread_exit
thread_exit-Keeps me v k {k'} e = elim (Bool-cases (is_some_of k.initproc me)) [
  | inl t ↦ absurd (panic-ok (rw t at e))
  | inr t ↦
      λ q. ap (λ (x : Kernel). memory (x.proc q)) (sym (ok-ok (rw t at e))) ∙ exited-Keeps me v k q
]
