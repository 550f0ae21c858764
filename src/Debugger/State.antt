-- ===== src/Debugger/State.antt =====
-- The state of the debugger (`struct cdbg`, include/debugger.h), the results 0, 1 and -1 of its functions,
-- and the functions that only touch the state: `cdbg_refresh_regs`, `cdbg_single_step`, `cdbg_process_wait`.
use macos_c_debugger_arm.Breakpoint.{Breakpoint}
use macos_c_debugger_arm.Kernel.{Kernel, Waited, interrupted}
use macos_c_debugger_arm.Prelude.{ℕ, zero, suc, Bool, true, false, if◌then◌else◌}
use macos_c_debugger_arm.Regs.{Regs, regs_get}
use macos_c_debugger_arm.Table.{Table}
use macos_c_debugger_arm.Watchpoint.{Watchpoint}

pub data State : Type 0 where
  idle running stopped : State

pub data Rc : Type 0 where
  ok exited failed : Rc

abbrev pub max_breakpoints : ℕ
max_breakpoints = 64

-- `pid` is 0 where the source has a pid that is not positive.
pub record Cdbg : Type 0 where
  pub pid : ℕ
  pub state : State
  pub wait_status : Waited
  pub current_tid : ℕ
  pub regs : Regs
  pub breakpoints : Table Breakpoint
  pub watchpoints : Table Watchpoint

abbrev pub is_idle : State → Bool
is_idle State.idle = true
is_idle _ = false

abbrev pub is_stopped : State → Bool
is_stopped State.stopped = true
is_stopped _ = false

module _ (k : Kernel) where
  -- What a function of the debugger leaves: its state, the system, and its result.
  abbrev pub Result : Type 0 → Type 0
  Result A = Cdbg × k.World × A

  unfoldable pub refresh_regs : Cdbg → k.World → Cdbg × Bool
  refresh_regs d w =
      let (regs, done) = regs_get k w d.pid d.current_tid d.regs in (record d { regs = regs }, done)

  unfoldable pub single_step : Cdbg → k.World → Result Bool
  single_step d w =
      let (w', done) = k.pt_step w d.pid in
      if done then (record d { state = State.running }, w', true) else (d, w', false)

  -- do { ret = waitpid(...) } while (ret == -1 && errno == EINTR). Without fuel it is still interrupted.
  unfoldable pub process_wait : ℕ → k.World → ℕ → k.World × Waited
  process_wait zero w pid = (w, interrupted)
  process_wait (suc rounds) w pid =
      let (w', r) = k.waitpid w pid in
      let again = process_wait rounds w' pid in
      elim r as (λ _. k.World × Waited) [ interrupted ↦ again | other ↦ (w', other) ]
