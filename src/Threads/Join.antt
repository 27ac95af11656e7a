-- ===== src/Threads/Join.antt =====
-- `thread_exit` followed by `thread_join` of project2/proc.c.
use ele3021_os.Common.{
  ℕ, ◌<◌, ◌≡◌, ◌≢◌, true, false, ◌&&◌, none, some, ◌==◌, ==-refl, if◌then◌else◌, update_self,
  update_ne, refl, ap, ap₂, ◌∙◌, arith,
}
use ele3021_os.Mlfq.Queue.{nproc}
use ele3021_os.Mlfq.State.{unused, runnable, zombie, same_state, ok}
use ele3021_os.Threads.State.{
  tid_chan, is_some_of, Proc, Kernel, set_proc, find_proc, wakeup1, close_all,
}
use ele3021_os.Threads.Process.{cleanthread, close_files}
use ele3021_os.Threads.Thread.{thread_exit, thread_join, joined}
use ele3021_os.Threads.Loops.{find_proc-only, in_table, woken, wakeup1-proc}
use ele3021_os.Threads.Exit.Killing.{cleaned, cleanthread-proc}
use ele3021_os.Threads.Exit.Passing.{wakeup1-obs}
use ele3021_os.Threads.Exit.Outcome.{close_files-me, close_files-proc}

-- what `thread_exit` of `me` and a `thread_join` of it leave of the table
pub record JoinedBy (me : ℕ) (k k' : Kernel) : Type 0 where
  pub is_free : (k'.proc me).state ≡ unused
  pub no_ids : ((k'.proc me).pid ≡ 0) × ((k'.proc me).tid ≡ 0)
  pub no_stack : (k'.proc me).kstack ≡ none
  pub no_files : (k'.proc me).ofile ≡ close_all (k.proc me).ofile
  pub others :
      (q : ℕ) → q < nproc → me ≢ q → k'.proc q ≡ woken (tid_chan (k.proc me).tid) (k.proc q)

module _ (me v : ℕ) (k : Kernel) where
  -- the steps of `thread_exit`
  closed : Kernel
  closed = close_files me k

  valued : Kernel
  valued = set_proc closed me (record (closed.proc me) { retval = v })

  woke : Kernel
  woke = wakeup1 (tid_chan (valued.proc me).tid) valued

  gone : Kernel
  gone = set_proc woke me (record (woke.proc me) { state = zombie })

  valued-me :
      valued.proc me
      ≡ record (k.proc me) { ofile = close_all (k.proc me).ofile; cwd = none; retval = v }
  unfolding valued closed
  valued-me =
      update_self (close_files me k).proc me (record ((close_files me k).proc me) { retval = v })
      ∙ ap (λ (r : Proc). record r { retval = v }) (close_files-me me k)

  valued-ne : (q : ℕ) → me ≢ q → valued.proc q ≡ k.proc q
  unfolding valued closed
  valued-ne q ne =
      update_ne (close_files me k).proc me (record ((close_files me k).proc me) { retval = v }) q ne
      ∙ close_files-proc me q k ne

  gone-me : gone.proc me ≡ record (woke.proc me) { state = zombie }
  unfolding gone
  gone-me = update_self woke.proc me (record (woke.proc me) { state = zombie })

  gone-ne : (q : ℕ) → me ≢ q → gone.proc q ≡ woke.proc q
  unfolding gone
  gone-ne q ne = update_ne woke.proc me (record (woke.proc me) { state = zombie }) q ne

  -- what no wakeup changes, at the thread that exits
  gone-obs {ℓ} :
      {A : Type ℓ} (obs : Proc → A)
      → ((r : Proc) → obs (record r { state = runnable }) ≡ obs r)
      → ((r : Proc) → obs (record r { state = zombie }) ≡ obs r)
      → obs (gone.proc me)
        ≡ obs (record (k.proc me) { ofile = close_all (k.proc me).ofile; cwd = none; retval = v })
  unfolding woke
  gone-obs obs blind blind' =
      ap obs gone-me
      ∙ (blind' (woke.proc me)
          ∙ (wakeup1-obs obs (λ r _. blind r) (tid_chan (valued.proc me).tid) me valued
              ∙ ap obs valued-me))

  gone-tid : (q : ℕ) → me ≢ q → (gone.proc q).tid ≡ (k.proc q).tid
  unfolding woke
  gone-tid q ne =
      ap (λ (r : Proc). r.tid) (gone-ne q ne)
      ∙ (wakeup1-obs (λ r. r.tid) (λ r _. refl) (tid_chan (valued.proc me).tid) q valued
          ∙ ap (λ (r : Proc). r.tid) (valued-ne q ne))

  gone-woken :
      (q : ℕ) → q < nproc → me ≢ q → gone.proc q ≡ woken (tid_chan (k.proc me).tid) (k.proc q)
  unfolding woke
  gone-woken q lt ne =
      let t : in_table q ≡ true = ground arith in
      gone-ne q ne
      ∙ (wakeup1-proc (tid_chan (valued.proc me).tid) q valued
          ∙ (rw t refl
              ∙ ap₂ (λ (r r' : Proc). woken (tid_chan r.tid) r') valued-me (valued-ne q ne)))

  module _ (j : ℕ) (lt : me < nproc)
      (unique : (q : ℕ) → q < me → (k.proc q).tid ≢ (k.proc me).tid) where
    abbrev tid : ℕ
    tid = (k.proc me).tid

    found : find_proc (λ p. p.tid == tid && same_state p.state zombie) gone ≡ some me
    found =
        let z : same_state (gone.proc me).state zombie ≡ true =
          ap (λ (r : Proc). same_state r.state zombie) gone-me in
        let e : (gone.proc me).tid ≡ tid = gone-obs (λ r. r.tid) (λ r. refl) (λ r. refl) in
        find_proc-only (λ p. p.tid == tid && same_state p.state zombie) me gone lt
          (rw (z, e) (rw (==-refl tid) refl))
          (λ q below.
            let ne : me ≢ q = omega arith in
            let f : ((gone.proc q).tid == tid) ≡ false =
              rw (gone-tid q ne)
                (let u : (k.proc q).tid ≢ tid = unique q below in ground (arith, u)) in
            rw f refl)

    join_gone : thread_join j tid gone ≡ (joined (gone.proc me).retval, cleanthread me gone)
    unfolding thread_join
    join_gone = rw (found, thread_join) refl

    cleanthread-gone :
        (q : ℕ)
        → (cleanthread me gone).proc q ≡ (if me == q then cleaned (gone.proc me) else gone.proc q)
    cleanthread-gone q =
        cleanthread-proc me q gone (ap (λ (r : Proc). same_state r.state zombie) gone-me)

    cleanthread-me : (cleanthread me gone).proc me ≡ cleaned (gone.proc me)
    cleanthread-me = cleanthread-gone me ∙ (let s : (me == me) ≡ true = ==-refl me in rw s refl)

    joined_by : JoinedBy me k (cleanthread me gone)
    joined_by = record {
      is_free = ap (λ (r : Proc). r.state) cleanthread-me;
      no_ids = (ap (λ (r : Proc). r.pid) cleanthread-me, ap (λ (r : Proc). r.tid) cleanthread-me);
      no_stack = ap (λ (r : Proc). r.kstack) cleanthread-me;
      no_files =
          ap (λ (r : Proc). r.ofile) cleanthread-me
          ∙ gone-obs (λ r. r.ofile) (λ r. refl) (λ r. refl);
      others = λ q below ne.
          let s : (me == q) ≡ false = ground arith in
          cleanthread-gone q ∙ rw s (gone-woken q below ne);
    }

-- A thread other than init exits with the value `v`, and a thread then joins its id, which no entry
-- before it has too. The join gives `v` at once, frees the entry (its state, ids and kernel stack) with
-- its files closed, and no other entry changes but that those that slept in a join of it are runnable.
pub thread_join-thread_exit :
    (me j v : ℕ) (k : Kernel)
    → me < nproc
    → is_some_of k.initproc me ≡ false
    → ((q : ℕ) → q < me → (k.proc q).tid ≢ (k.proc me).tid)
    → (k1 : Kernel) × (k2 : Kernel) × (thread_exit me v k ≡ ok k1)
      × (thread_join j (k.proc me).tid k1 ≡ (joined v, k2))
      × JoinedBy me k k2
unfolding thread_exit
thread_join-thread_exit me j v k lt not_init unique = (
  gone me v k,
  cleanthread me (gone me v k),
  rw (not_init, thread_exit) (unfold gone woke valued closed in refl),
  join_gone me v k j lt unique
      ∙ ap (λ x. (joined x, cleanthread me (gone me v k)))
          (gone-obs me v k (λ r. r.retval) (λ r. refl) (λ r. refl)),
  joined_by me v k j lt unique,
)
