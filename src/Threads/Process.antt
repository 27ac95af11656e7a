-- ===== src/Threads/Process.antt =====
-- Processes of project2/proc.c: `allocproc`, `userinit`, `growproc`, `fork`, `exit`, `wait`, `kill`
-- and the scheduler, with `cleanthread` and `cleanforexec`. What `kalloc`, `setupkvm`, `copyuvm` and
-- `namei` return is an argument.
use ele3021_os.Common.{
  ℕ, ◌+◌, ◌%◌, ◌^◌, [], ◌++◌, Bool, true, false, not, ◌&&◌, ◌||◌, Option, none, some, is_some, ◌==◌,
  ltb, if◌then◌else◌,
}
use ele3021_os.Mlfq.Queue.{nproc}
use ele3021_os.Mlfq.State.{
  unused, embryo, sleeping, runnable, running, zombie, same_state, Result, ok, panic,
}
use ele3021_os.Mlfq.Life.{initcode_name, init_frame, dup_files}
use ele3021_os.Threads.State.{
  Chan, no_chan, proc_chan, is_some_of, filedup, fileclose, idup, iput, kfree, freevm, switchuvm,
  begin_op, end_op, Kernel, set_proc, call, file_calls, close_all, find_proc, for_procs, pgsize,
  allocuvm, deallocuvm, wakeup1, sleep,
}

unfoldable pub set_found : Option ℕ → ℕ → Kernel → Option ℕ × Kernel
set_found page p k = elim page [
  | none ↦ (none, set_proc k p (record (k.proc p) { kstack = none; state = unused }))
  | some s ↦ (some p, set_proc k p (record (k.proc p) { kstack = some s; state = embryo }))
]

unfoldable pub allocproc : Option ℕ → Kernel → Option ℕ × Kernel
unfolding set_found
allocproc page k = elim (find_proc (λ p. same_state p.state unused) k) [
  | none ↦ (none, k)
  | some p ↦ set_found page p k
]

-- A null `allocproc()` is dereferenced, which is a fault.
unfoldable pub userinit : Option ℕ → Option ℕ → ℕ → Kernel → Result Kernel
unfolding allocproc
userinit page pgdir root k =
    let (r, k1) = allocproc page k in
    elim r [
      | none ↦ panic
      | some p ↦ elim pgdir [
        | none ↦ panic
        | some d ↦ ok (
            set_proc (record k1 { initproc = some p }) p
              (record (k1.proc p) {
                pgdir = some d;
                sz = pgsize;
                tf = init_frame;
                name = initcode_name;
                cwd = some root;
                state = runnable;
              }))
      ]
    ]

-- the end of `growproc`
unfoldable pub grown : ℕ → ℕ → ℕ → Kernel → Bool × Kernel
grown me m sz k = (
  true,
  call (switchuvm me) (record (set_proc k m (record (k.proc m) { sz = sz })) { locked = false }),
)

-- `n` is the 32-bit pattern of the `int`. The failing branches return with the lock held. A null
-- `mainthread` is a fault.
unfoldable pub growproc : Bool → ℕ → ℕ → Kernel → Result (Bool × Kernel)
unfolding grown allocuvm deallocuvm
growproc room me n k = elim ((k.proc me).mainthread) [
  | none ↦ panic
  | some m ↦
      let k1 = record k { locked = true } in
      let sz = (k.proc m).sz in
      let limit = (k.proc m).memorylimit in
      let newsz = (sz + n) % 2 ^ 32 in
      if not (limit == 0) && ltb limit newsz
      then ok (false, k1)
      else if n == 0
      then ok (grown me m sz k1)
      else (let r = if ltb n (2 ^ 31) then allocuvm room sz newsz else deallocuvm sz newsz in
          if r == 0 then ok (false, k1) else ok (grown me m r k1))
]

-- the child `np` of `me`, with its page table
unfoldable pub fork_child : ℕ → ℕ → ℕ → Kernel → Kernel
unfolding dup_files file_calls
fork_child me np d k =
    let cur = k.proc me in
    let new = k.proc np in
    let k1 =
      set_proc (record k { nextpid = k.nextpid + 1 }) np
        (record new {
          pgdir = some d;
          sz = cur.sz;
          parent = some me;
          tf = record (cur.tf) { eax = 0 };
          mainthread = some np;
          pid = k.nextpid;
          tid = 0;
          stacksize = cur.stacksize;
          memorylimit = 0;
          ofile = dup_files cur.ofile new.ofile;
          cwd = cur.cwd;
          name = cur.name;
          state = runnable;
        }) in
    call (idup cur.cwd) (record k1 { calls = k1.calls ++ file_calls filedup cur.ofile })

-- the child's pid, or none for -1
unfoldable pub fork : Option ℕ → Option ℕ → ℕ → Kernel → Option ℕ × Kernel
fork page pgdir me k =
    let (r, k1) = allocproc page k in
    elim r [
      | none ↦ (none, k1)
      | some np ↦ elim pgdir [
        | none ↦ (
          none,
          set_proc (call (kfree (k1.proc np).kstack) k1) np
              (record (k1.proc np) { pgdir = none; kstack = none; state = unused }),
        )
        | some d ↦ (some k1.nextpid, fork_child me np d k1)
      ]
    ]

-- `deallocuvm(p->pgdir, p->sz, p->sz + 2*PGSIZE)` is asked to grow, and does nothing.
unfoldable pub cleanthread : ℕ → Kernel → Kernel
cleanthread p k =
    if same_state (k.proc p).state zombie
    then set_proc (call (kfree (k.proc p).kstack) k) p (record (k.proc p) {
      kstack = none;
      pid = 0;
      tid = 0;
      parent = none;
      name = [];
      killed = false;
      state = unused;
      retval = 0;
    })
    else k

-- the body of the loop of `exit` and `cleanforexec` over the threads other than `me`
unfoldable pub kill_thread : ℕ → ℕ → Kernel → Kernel
unfolding cleanthread
kill_thread me p k =
    if (k.proc p).pid == (k.proc me).pid && not (p == me)
    then cleanthread p (set_proc k p (record (k.proc p) { state = zombie }))
    else k

unfoldable pub kill_threads : ℕ → Kernel → Kernel
unfolding kill_thread for_procs
kill_threads me k = for_procs (kill_thread me) 0 nproc k

unfoldable pub cleanforexec : ℕ → Kernel → Kernel
unfolding kill_threads
cleanforexec me k = if (k.proc me).tid == 0 then k else kill_threads me k

-- closing the files and the directory, as `exit` and `thread_exit` do it
unfoldable pub close_files : ℕ → Kernel → Kernel
unfolding file_calls close_all
close_files me k =
    let k1 = record k { calls = k.calls ++ file_calls fileclose (k.proc me).ofile } in
    let k2 = call end_op (call (iput (k.proc me).cwd) (call begin_op k1)) in
    set_proc k2 me (record (k.proc me) { ofile = close_all (k.proc me).ofile; cwd = none })

abbrev pub chan_of : Option ℕ → Chan
chan_of none = no_chan
chan_of (some p) = proc_chan p

-- the body of the loop that passes the children of `me` to init
unfoldable pub pass_to_init : ℕ → ℕ → Kernel → Kernel
unfolding wakeup1
pass_to_init me p k =
    if is_some_of (k.proc p).parent me
    then (let k' = set_proc k p (record (k.proc p) { parent = k.initproc }) in
        if same_state (k.proc p).state zombie then wakeup1 (chan_of k.initproc) k' else k')
    else k

-- `exit` behind its check, up to `sched`
unfoldable pub exit_table : ℕ → Kernel → Kernel
exit_table me k =
    let k1 = kill_threads me (close_files me k) in
    let k2 = wakeup1 (chan_of (k1.proc me).parent) k1 in
    let k3 = for_procs (pass_to_init me) 0 nproc k2 in
    set_proc k3 me (record (k3.proc me) { state = zombie })

unfoldable pub exit : ℕ → Kernel → Result Kernel
exit me k = if is_some_of k.initproc me then panic else ok (exit_table me k)

-- How a round of `wait` ends: with the pid of a child, with -1, or asleep.
pub data Waited : Type 0 where
  reaped : ℕ → Waited
  no_children : Waited
  waiting : Waited

-- the freeing of a zombie in `wait`
unfoldable pub reap : ℕ → Kernel → Kernel
reap p k =
    set_proc (call (freevm (k.proc p).pgdir) (call (kfree (k.proc p).kstack) k)) p
      (record (k.proc p) {
        kstack = none;
        pid = 0;
        parent = none;
        name = [];
        killed = false;
        state = unused;
      })

unfoldable pub wait : ℕ → Kernel → Waited × Kernel
unfolding reap sleep
wait me k =
    let child = find_proc (λ p. is_some_of p.parent me) k in
    elim (find_proc (λ p. is_some_of p.parent me && same_state p.state zombie) k) [
      | some p ↦ (reaped (k.proc p).pid, reap p k)
      | none ↦
          if not (is_some child) || (k.proc me).killed
          then (no_children, k)
          else (waiting, sleep me (proc_chan me) k)
    ]

-- true for the result 0, false for -1
unfoldable pub kill : ℕ → Kernel → Bool × Kernel
kill pid k = elim (find_proc (λ p. p.pid == pid) k) [
  | none ↦ (false, k)
  | some p ↦ (
    true,
    set_proc k p (record (k.proc p) {
      killed = true;
      state = if same_state (k.proc p).state sleeping then runnable else (k.proc p).state;
    }),
  )
]

-- what `scheduler` does for the entry `p` up to its `swtch`, and whether it switches to it
unfoldable pub scheduler : ℕ → Kernel → Bool × Kernel
scheduler p k =
    if same_state (k.proc p).state runnable
    then (true, set_proc (call (switchuvm p) k) p (record (k.proc p) { state = running }))
    else (false, k)

-- up to `sched`
unfoldable pub yield : ℕ → Kernel → Kernel
yield me k = set_proc k me (record (k.proc me) { state = runnable })
