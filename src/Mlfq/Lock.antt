-- ===== src/Mlfq/Lock.antt =====
-- The system calls of project1/proc.c: `getLevel`, `setPriority`, `schedulerLock` and
-- `schedulerUnlock`. A message on the console is the call `print`.
use ele3021_os.Common.{ℕ, none, some, ◌==◌, ltb, if◌then◌else◌, not}
use ele3021_os.Common.Int.{ℤ, pos, negsuc}
use ele3021_os.Mlfq.Queue.{insertqueue}
use ele3021_os.Mlfq.State.{
  runnable, invalid_password, print, Kernel, Result, ok, call, set_proc, set_queue, find_proc,
}
use ele3021_os.Mlfq.Sleep.{sched}
use ele3021_os.Mlfq.Life.{exit}

-- PASSWORD
abbrev pub password : ℕ
password = 2021035487

unfoldable pub get_level : ℕ → Kernel → ℕ
get_level me k = (k.proc me).level

unfoldable pub assign_priority : ℕ → ℕ → Kernel → Kernel
assign_priority pid priority k = elim (find_proc (λ p. p.pid == pid) k) [
  | none ↦ call print k
  | some p ↦ set_proc k p (record (k.proc p) { priority = priority })
]

-- `priority < 0 || priority > 3` is refused
unfoldable pub set_priority : ℕ → ℤ → Kernel → Kernel
unfolding assign_priority
set_priority pid (negsuc n) k = call print k
set_priority pid (pos n) k = if ltb 3 n then call print k else assign_priority pid n k

unfoldable pub scheduler_lock : ℕ → ℕ → ℕ → Kernel → Result Kernel
unfolding exit
scheduler_lock pass cpu me k =
    if not (pass == password) then exit cpu me (call invalid_password k) else elim (k.lockproc) [
      | some h ↦ ok (call print k)
      | none ↦ ok (record k { lockproc = some me; mlfqticks = 0 })
    ]

-- the holder's way back to the queues
unfoldable pub release_scheduler : ℕ → Kernel → Kernel
release_scheduler me k =
    let r = record (k.proc me) { level = 0; usedtime = 0; priority = 3; state = runnable } in
    let k' = set_proc (record k { lockproc = none }) me r in
    set_queue k' 0 (insertqueue (k'.l 0) me)

unfoldable pub scheduler_unlock : ℕ → ℕ → ℕ → Kernel → Result Kernel
unfolding exit release_scheduler sched
scheduler_unlock pass cpu me k =
    if not (pass == password) then exit cpu me (call invalid_password k) else elim (k.lockproc) [
      | none ↦ ok (call print k)
      | some h ↦
          if not ((k.proc h).pid == (k.proc me).pid)
          then ok (call print k)
          else sched cpu me (release_scheduler me k)
    ]
