-- ===== src/Threads/State.antt =====
-- The state of project2/proc.c: `struct proc` of proc.h with the fields of threads, and `ptable`. A
-- process or thread is its index in `ptable.proc`. `locked` says that `ptable.lock` is held where a
-- function returns; within a function the lock is taken and released around what is one step.
use ele3021_os.Common.{
  ℕ, zero, suc, List, [], ◌∷◌, ◌++◌, Bool, true, false, ◌&&◌, Option, none, some, ◌==◌, ltb, leb,
  if◌then◌else◌, update,
}
use ele3021_os.Mlfq.Queue.{nproc}
use ele3021_os.Mlfq.State.{ProcState, sleeping, runnable, same_state, Trapframe}

-- what a process sleeps on: a process in `wait`, a thread id in `thread_join`, or another address
pub data Chan : Type 0 where
  no_chan : Chan
  proc_chan : ℕ → Chan
  tid_chan : ℕ → Chan
  other_chan : ℕ → Chan

-- Thread id 0 is the null channel.
abbrev pub same_chan : Chan → Chan → Bool
same_chan no_chan no_chan = true
same_chan (proc_chan p) (proc_chan q) = p == q
same_chan (tid_chan p) (tid_chan q) = p == q
same_chan (other_chan p) (other_chan q) = p == q
same_chan no_chan (tid_chan q) = q == 0
same_chan (tid_chan p) no_chan = p == 0
same_chan _ _ = false

abbrev pub is_some_of : Option ℕ → ℕ → Bool
is_some_of none p = false
is_some_of (some q) p = q == p

-- `struct proc`, less `context`; a null pointer is none
pub record Proc : Type 0 where
  pub sz : ℕ
  pub pgdir : Option ℕ
  pub kstack : Option ℕ
  pub state : ProcState
  pub pid : ℕ
  pub parent : Option ℕ
  pub tf : Trapframe
  pub chan : Chan
  pub killed : Bool
  pub ofile : List (Option ℕ)
  pub cwd : Option ℕ
  pub name : List ℕ
  pub memorylimit : ℕ
  pub stacksize : ℕ
  pub mainthread : Option ℕ
  pub tid : ℕ
  pub retval : ℕ

-- Calls into other parts of the kernel, in the order in which they are made, with their arguments. The
-- functions of proc.c do not test these pointers: a call with a null pointer is made like any other,
-- and what the callee does with it (kfree and freevm panic) is not part of the state here.
pub data Call : Type 0 where
  filedup fileclose switchuvm : ℕ → Call
  idup iput kfree freevm : Option ℕ → Call
  begin_op end_op : Call
  copyout : ℕ → List ℕ → Call

pub record Kernel : Type 0 where
  pub proc : ℕ → Proc
  pub initproc : Option ℕ
  pub nextpid : ℕ
  pub nexttid : ℕ
  pub locked : Bool
  pub calls : List Call

abbrev pub set_proc : Kernel → ℕ → Proc → Kernel
set_proc k p r = record k { proc = update k.proc p r }

abbrev pub call : Call → Kernel → Kernel
call c k = record k { calls = k.calls ++ (c ∷ []) }

-- a call for each open file
unfoldable pub file_calls : (ℕ → Call) → List (Option ℕ) → List Call
file_calls c [] = []
file_calls c (none ∷ fs) = file_calls c fs
file_calls c (some f ∷ fs) = c f ∷ file_calls c fs

unfoldable pub close_all : List (Option ℕ) → List (Option ℕ)
close_all [] = []
close_all (f ∷ fs) = none ∷ close_all fs

-- `for(p = ptable.proc; p < &ptable.proc[NPROC]; p++)` up to the first that passes the test
unfoldable pub find_from : (Proc → Bool) → (ℕ → Proc) → ℕ → ℕ → Option ℕ
find_from test procs p zero = none
find_from test procs p (suc n) =
    let rest = find_from test procs (suc p) n in if test (procs p) then some p else rest

abbrev pub find_proc : (Proc → Bool) → Kernel → Option ℕ
find_proc test k = find_from test k.proc 0 nproc

-- the same loop where its body changes the kernel
unfoldable pub for_procs : (ℕ → Kernel → Kernel) → ℕ → ℕ → Kernel → Kernel
for_procs body p zero k = k
for_procs body p (suc n) k = for_procs body (suc p) n (body p k)

abbrev pub pgsize : ℕ
pgsize = 4096

abbrev pub kernbase : ℕ
kernbase = 0x80000000

-- The size that `allocuvm` of vm.c returns, 0 for a failure; `room` says that there are pages.
unfoldable pub allocuvm : Bool → ℕ → ℕ → ℕ
allocuvm room oldsz newsz =
    if leb kernbase newsz then 0 else if ltb newsz oldsz then oldsz else if room then newsz else 0

-- The size that `deallocuvm` of vm.c returns.
unfoldable pub deallocuvm : ℕ → ℕ → ℕ
deallocuvm oldsz newsz = if leb oldsz newsz then oldsz else newsz

unfoldable pub wake_one : Chan → ℕ → Kernel → Kernel
wake_one chan p k =
    if same_state (k.proc p).state sleeping && same_chan (k.proc p).chan chan
    then set_proc k p (record (k.proc p) { state = runnable })
    else k

unfoldable pub wakeup1 : Chan → Kernel → Kernel
unfolding wake_one for_procs
wakeup1 chan k = for_procs (wake_one chan) 0 nproc k

-- `sleep` up to its `sched`
unfoldable pub sleep : ℕ → Chan → Kernel → Kernel
sleep me chan k = set_proc k me (record (k.proc me) { chan = chan; state = sleeping })
