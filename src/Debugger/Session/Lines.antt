-- ===== src/Debugger/Session/Lines.antt =====
-- The commands of src/debugger.c that step by source lines keep the tables well formed.
use macos_c_debugger_arm.Breakpoint.{
  Breakpoint, no_breakpoint, bp_enable, bp_disable, bp_is_trap, bp_matches_pc,
}
use macos_c_debugger_arm.Debugger.Control.{wait, continue_process}
use macos_c_debugger_arm.Debugger.Session.Process.{
  Keeps, wait-Keeps, single_step-Keeps, continue-Keeps,
}
use macos_c_debugger_arm.Debugger.Session.Stops.{report_stop-Keeps, try_report-Keeps}
use macos_c_debugger_arm.Debugger.Session.Tables.{IsWellFormed}
use macos_c_debugger_arm.Debugger.State.{Rc, Cdbg, is_idle, is_stopped, refresh_regs, single_step}
use macos_c_debugger_arm.Debugger.Step.{
  is_ok, call_return_address, finish_temp_breakpoint, after_call, step_over_call, step_and_wait,
  call_or_step, step_blindly, check_line, line_loop, step_lines, max_step_iterations,
}
use macos_c_debugger_arm.Debugger.Stop.{try_report_watchpoint_hit}
use macos_c_debugger_arm.Kernel.{Kernel}
use macos_c_debugger_arm.Lineno.{LineEntry, Lineno, entry_at_pc}
use macos_c_debugger_arm.Prelude.{by_if, by_option, ℕ, zero, suc, Bool, not, if◌then◌else◌}
use macos_c_debugger_arm.Regs.{regs_pc}
use macos_c_debugger_arm.Table.{live}

module _ (k : Kernel) where
  finish-Keeps :
      (rounds : ℕ) (d : Cdbg) (w : k.World) (bp : Breakpoint)
      → IsWellFormed d
      → Keeps k (finish_temp_breakpoint k rounds d w bp)
  unfolding finish_temp_breakpoint refresh_regs
  finish-Keeps rounds d w bp h =
      let seen = refresh_regs k d w in
      by_if (Keeps k) (not seen.1) h (
        by_if (Keeps k) (bp_matches_pc (regs_pc seen.0.regs) bp) h
          (report_stop-Keeps k rounds seen.0 (bp_disable k bp w d.pid).1 h))

  after_call-Keeps :
      (rounds : ℕ) (d : Cdbg) (w : k.World) (rc : Rc) (bp : Breakpoint)
      → IsWellFormed d
      → Keeps k (after_call k rounds d w rc bp)
  unfolding after_call
  after_call-Keeps rounds d w rc bp h =
      by_if (Keeps k) (not (is_ok rc)) h
        (by_if (Keeps k) (not (is_stopped d.state)) h (finish-Keeps rounds d w bp h))

  step_over_call-Keeps :
      (rounds : ℕ) (d : Cdbg) (w : k.World) (addr : ℕ)
      → IsWellFormed d
      → Keeps k (step_over_call k rounds d w addr)
  unfolding step_over_call
  step_over_call-Keeps rounds d w addr h =
      let set_bp = bp_enable k no_breakpoint w d.pid addr in
      let went = continue_process k rounds d set_bp.1 in
      let kept = continue-Keeps k rounds d set_bp.1 h in
      let waited = wait k rounds went.0 went.1 in
      by_if (Keeps k) (not set_bp.2) h (
        by_if (Keeps k) (not (is_ok went.2)) kept (
          by_if (Keeps k) (is_idle went.0.state) kept (
            after_call-Keeps rounds waited.0 waited.1 waited.2 set_bp.0
              (wait-Keeps k rounds went.0 went.1 kept))))

  step_and_wait-Keeps :
      (rounds : ℕ) (d : Cdbg) (w : k.World) → IsWellFormed d → Keeps k (step_and_wait k rounds d w)
  unfolding step_and_wait
  step_and_wait-Keeps rounds d w h =
      let step = single_step k d w in
      let stepped = single_step-Keeps k d w h in
      let kept = wait-Keeps k rounds step.0 step.1 stepped in
      by_if (Keeps k) (not step.2) stepped
        (by_if (Keeps k) (not (is_ok (wait k rounds step.0 step.1).2)) kept kept)

  call_or_step-Keeps :
      (rounds : ℕ) (d : Cdbg) (w : k.World) (pc : ℕ)
      → IsWellFormed d
      → Keeps k (call_or_step k rounds d w pc)
  unfolding call_or_step
  call_or_step-Keeps rounds d w pc h =
      by_option (Keeps k) (call_return_address k w d.pid pc) (step_and_wait-Keeps rounds d w h)
        (λ addr.
          by_if (Keeps k) (not (step_over_call k rounds d w addr).2)
            (step_over_call-Keeps rounds d w addr h) (step_over_call-Keeps rounds d w addr h))

  step_blindly-Keeps :
      (rounds : ℕ) (d : Cdbg) (w : k.World) → IsWellFormed d → Keeps k (step_blindly k rounds d w)
  unfolding step_blindly
  step_blindly-Keeps rounds d w h =
      let over = step_and_wait k rounds d w in
      let kept = step_and_wait-Keeps rounds d w h in
      by_option (Keeps k) over.2 (report_stop-Keeps k rounds over.0 over.1 kept) (λ r. kept)

  check_line-Keeps :
      (rounds : ℕ) (ln : Lineno) (start : LineEntry) (d : Cdbg) (w : k.World)
      → IsWellFormed d
      → Keeps k (check_line k rounds ln start d w)
  unfolding check_line refresh_regs
  check_line-Keeps rounds ln start d w h =
      let seen = refresh_regs k d w in
      let tried = try_report_watchpoint_hit k rounds seen.0 w in
      let kept = try_report-Keeps k rounds seen.0 w h in
      by_if (Keeps k) (not seen.1) h (
        by_if (Keeps k) (bp_is_trap (regs_pc seen.0.regs) (live d.breakpoints))
          (report_stop-Keeps k rounds seen.0 w h) (by_if (Keeps k) tried.2 kept kept))

  line_loop-Keeps :
      (rounds : ℕ) (ln : Lineno) (start : LineEntry) (over_calls : Bool) (n : ℕ) (d : Cdbg)
      (w : k.World)
      → IsWellFormed d
      → Keeps k (line_loop k rounds ln start over_calls n d w)
  unfolding line_loop
  line_loop-Keeps rounds ln start over_calls zero d w h = h
  line_loop-Keeps rounds ln start over_calls (suc n) d w h =
      let moved =
        if over_calls
        then call_or_step k rounds d w (regs_pc d.regs)
        else step_and_wait k rounds d w in
      let kept : IsWellFormed moved.0 =
        by_if (Keeps k) over_calls (call_or_step-Keeps rounds d w (regs_pc d.regs) h)
          (step_and_wait-Keeps rounds d w h) in
      let checked = check_line k rounds ln start moved.0 moved.1 in
      let kept2 = check_line-Keeps rounds ln start moved.0 moved.1 kept in
      by_option (Keeps k) moved.2
        (by_option (Keeps k) checked.2
          (line_loop-Keeps rounds ln start over_calls n checked.0 checked.1 kept2) (λ r. kept2))
        (λ r. kept)

  pub step_lines-Keeps :
      (rounds : ℕ) (ln : Lineno) (over_calls : Bool) (d : Cdbg) (w : k.World)
      → IsWellFormed d
      → Keeps k (step_lines k rounds ln over_calls d w)
  unfolding step_lines refresh_regs
  step_lines-Keeps rounds ln over_calls d w h =
      let seen = refresh_regs k d w in
      by_if (Keeps k) (not seen.1) h (
        by_option (Keeps k) (entry_at_pc ln (regs_pc seen.0.regs))
          (step_blindly-Keeps rounds seen.0 w h)
          (λ start. line_loop-Keeps rounds ln start over_calls max_step_iterations seen.0 w h))
