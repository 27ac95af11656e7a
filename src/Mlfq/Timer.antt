-- ===== src/Mlfq/Timer.antt =====
-- The timer interrupt: that case and the end of `trap` of project1/trap.c.
use ele3021_os.Common.{ℕ, ◌+◌, ◌%◌, ◌^◌, Bool, true, ◌&&◌, none, some, ◌==◌, if◌then◌else◌}
use ele3021_os.Mlfq.State.{running, same_state, ticks_chan, lapiceoi, Kernel, Result, ok, call}
use ele3021_os.Mlfq.Sleep.{yield, wakeup}
use ele3021_os.Mlfq.Life.{exit}
use ele3021_os.Mlfq.Boost.{priorityboosting}

-- `case T_IRQ0 + IRQ_TIMER`; `ticks` is a `uint`
unfoldable pub timer_case : ℕ → Kernel → Kernel
unfolding priorityboosting wakeup
timer_case cpu k =
    let k1 = record k { ticks = (k.ticks + 1) % 2 ^ 32; mlfqticks = (k.mlfqticks + 1) % 100 } in
    let k2 = if k1.mlfqticks == 0 then priorityboosting k1 else k1 in
    call lapiceoi (if cpu == 0 then wakeup ticks_chan k2 else k)

-- What follows the switch of `trap`, up to where the process gives up the CPU. `user` is
-- `(tf->cs & 3) == DPL_USER`, `timer` is `tf->trapno == T_IRQ0 + IRQ_TIMER`.
unfoldable pub trap_end : Bool → Bool → ℕ → Kernel → Result Kernel
unfolding exit yield
trap_end user timer cpu k = elim (k.running_on cpu) [
  | none ↦ ok k
  | some me ↦
      if (k.proc me).killed && user
      then exit cpu me k
      else if same_state (k.proc me).state running && timer
      then yield cpu me k
      else ok k
]

-- an interrupt of the timer as a whole
unfoldable pub timer_interrupt : Bool → ℕ → Kernel → Result Kernel
unfolding timer_case trap_end
timer_interrupt user cpu k = trap_end user true cpu (timer_case cpu k)
