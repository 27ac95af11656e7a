-- ===== src/Threads/Thread.antt =====
-- `thread_create`, `thread_exit`, `thread_join`, `setmemorylimit` and `showprocs` of project2/proc.c.
use ele3021_os.Common.{
  ℕ, ◌+◌, ◌-◌, ◌*◌, ◌%◌, ◌^◌, List, [], ◌∷◌, ◌++◌, Bool, true, false, not, ◌&&◌, ◌||◌, Option, none,
  some, is_some, ◌==◌, ltb, if◌then◌else◌, zero, suc,
}
use ele3021_os.Mlfq.Queue.{nproc}
use ele3021_os.Mlfq.State.{sleeping, runnable, running, zombie, same_state, Result, ok, panic}
use ele3021_os.Mlfq.Life.{dup_files}
use ele3021_os.Threads.State.{
  tid_chan, is_some_of, Proc, filedup, idup, copyout, Kernel, set_proc, call, file_calls, find_proc,
  pgsize, allocuvm, wakeup1, sleep,
}
use ele3021_os.Threads.Process.{allocproc, close_files, cleanthread}

-- the fields of the new thread `np` that are set before its stack is allocated
unfoldable pub share : ℕ → ℕ → ℕ → Kernel → Kernel
share me m np k =
    set_proc (record k { nexttid = k.nexttid + 1 }) np
      (record (k.proc np) {
        pgdir = (k.proc m).pgdir;
        sz = (k.proc m).sz;
        tf = (k.proc me).tf;
        mainthread = some m;
        pid = (k.proc m).pid;
        tid = k.nexttid;
        retval = 0;
        parent = (k.proc m).parent;
      })

-- the end of `thread_create`, for a stack that ends at `sz`
unfoldable pub start_thread : ℕ → ℕ → ℕ → ℕ → ℕ → Kernel → Kernel
unfolding dup_files file_calls
start_thread m np sz start arg k =
    let main = k.proc m in
    let new = k.proc np in
    let k1 = call (copyout (sz - 8) (0xffffffff ∷ arg ∷ [])) k in
    let k2 = set_proc k1 np (record new {
      tf = record (new.tf) { esp = sz - 8; eip = start };
      ofile = dup_files main.ofile new.ofile;
      cwd = main.cwd;
      name = main.name;
      state = runnable;
    }) in
    call (idup main.cwd) (record k2 { calls = k2.calls ++ file_calls filedup main.ofile })

-- the check against the limit of the main thread `m`
unfoldable pub over_limit : ℕ → Kernel → Bool
over_limit m k =
    not ((k.proc m).memorylimit == 0)
    && ltb (k.proc m).memorylimit (((k.proc m).sz + 2 * pgsize) % 2 ^ 32)

-- `allocuvm` for the stack of `np`, and the new size of the main thread; none is a return of -1
unfoldable pub grow_stack : Bool → ℕ → ℕ → Kernel → Option ℕ × Kernel
unfolding allocuvm
grow_stack room m np k =
    let old = (k.proc np).sz in
    let sz = allocuvm room old ((old + 2 * pgsize) % 2 ^ 32) in
    let k1 = set_proc k np (record (k.proc np) { sz = sz }) in
    if sz == 0 then (none, k1) else (some sz, set_proc k1 m (record (k1.proc m) { sz = sz }))

-- from the setting of `esp` on
unfoldable pub set_stack : Bool → ℕ → ℕ → ℕ → ℕ → ℕ → Kernel → Option ℕ × Kernel
unfolding start_thread
set_stack copied m np sz start arg k =
    if copied then (some (k.proc np).tid, start_thread m np sz start arg k) else (
      none,
      set_proc k np (record (k.proc np) { tf = record ((k.proc np).tf) { esp = sz - 8 } }),
    )

-- The parts of `thread_create` as a thread runs them when no other call comes between them. The source
-- holds no lock here, so other calls may come between `share`, `over_limit`, `grow_stack` and
-- `set_stack`: runs in which they do are runs of these parts, not of this definition.
-- `room` and `copied` say that `allocuvm` finds pages and that `copyout` succeeds. The result is the
-- thread id that is stored for a return of 0, or none for -1. A null `mainthread` is a fault.
unfoldable pub thread_create :
    Option ℕ → Bool → Bool → ℕ → ℕ → ℕ → Kernel → Result (Option ℕ × Kernel)
unfolding share over_limit grow_stack set_stack
thread_create page room copied start arg me k =
    let (r, k0) = allocproc page k in
    elim r [
      | none ↦ ok (none, k0)
      | some np ↦ elim ((k.proc me).mainthread) [
        | none ↦ panic
        | some m ↦
            let k1 = share me m np k0 in
            if over_limit m k1
            then ok (none, k1)
            else (let (stack, k2) = grow_stack room m np k1 in
                elim stack [
                  | none ↦ ok (none, k2)
                  | some sz ↦ ok (set_stack copied m np sz start arg k2)
                ])
      ]
    ]

-- up to `sched`
unfoldable pub thread_exit : ℕ → ℕ → Kernel → Result Kernel
unfolding close_files wakeup1
thread_exit me retval k =
    if is_some_of k.initproc me
    then panic
    else (let k1 = close_files me k in
        let k2 = set_proc k1 me (record (k1.proc me) { retval = retval }) in
        let k3 = wakeup1 (tid_chan (k2.proc me).tid) k2 in
        ok (set_proc k3 me (record (k3.proc me) { state = zombie })))

-- How a round of `thread_join` ends: with the thread's value, with -1, or asleep.
pub data Joined : Type 0 where
  joined : ℕ → Joined
  no_thread : Joined
  joining : Joined

unfoldable pub thread_join : ℕ → ℕ → Kernel → Joined × Kernel
unfolding cleanthread sleep
thread_join me thread k =
    let found = find_proc (λ p. p.tid == thread) k in
    elim (find_proc (λ p. p.tid == thread && same_state p.state zombie) k) [
      | some p ↦ (joined (k.proc p).retval, cleanthread p k)
      | none ↦
          if not (is_some found) || (k.proc me).killed
          then (no_thread, k)
          else (joining, sleep me (tid_chan thread) k)
    ]

-- `limit` is the 32-bit pattern of the `int`; the comparison with `sz` is one of `uint`s. True is
-- the result 0, false is -1.
unfoldable pub setmemorylimit : ℕ → ℕ → Kernel → Bool × Kernel
setmemorylimit pid limit k =
    if ltb (2 ^ 31 - 1) limit then (false, k) else elim (find_proc (λ p. p.pid == pid) k) [
      | none ↦ (false, k)
      | some p ↦
          if ltb limit (k.proc p).sz
          then (false, k)
          else (true, set_proc k p (record (k.proc p) { memorylimit = limit }))
    ]

-- a line of `showprocs`
pub record Row : Type 0 where
  pub name : List ℕ
  pub pid : ℕ
  pub stacksize : ℕ
  pub sz : ℕ
  pub memorylimit : ℕ

abbrev pub is_shown : Proc → Bool
is_shown p =
    (p.tid == 0)
    && (same_state p.state runnable || same_state p.state running || same_state p.state sleeping)

unfoldable pub rows_from : (ℕ → Proc) → ℕ → ℕ → List Row
rows_from procs p zero = []
rows_from procs p (suc n) =
    let r = procs p in
    let rest = rows_from procs (suc p) n in
    if is_shown r
    then record {
      name = r.name;
      pid = r.pid;
      stacksize = r.stacksize;
      sz = r.sz;
      memorylimit = r.memorylimit;
    }
      ∷ rest
    else rest

unfoldable pub showprocs : Kernel → List Row
unfolding rows_from
showprocs k = rows_from k.proc 0 nproc
