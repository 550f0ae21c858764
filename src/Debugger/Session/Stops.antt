-- ===== src/Debugger/Session/Stops.antt =====
-- The operations of src/debugger.c on the process keep the tables well formed: reporting and ending.
use macos_c_debugger_arm.Breakpoint.{no_breakpoint, bp_disable, bp_is_trap}
use macos_c_debugger_arm.Debugger.Control.{wait}
use macos_c_debugger_arm.Debugger.Session.Process.{Keeps, wait-Keeps, single_step-Keeps}
use macos_c_debugger_arm.Debugger.Session.Tables.{
  IsWellFormed, BreakpointsFit, WatchpointsFit, BreakpointsFit-set, WatchpointsFit-set,
  WatchpointsFit-off, BreakpointsFit-off,
}
use macos_c_debugger_arm.Debugger.State.{
  Rc, ok, exited, failed, Cdbg, is_idle, is_stopped, refresh_regs, single_step, process_wait,
}
use macos_c_debugger_arm.Debugger.Stop.{
  retire, report_process_exit, after_kill, stop_debuggee, handle_breakpoint_hit, record_value,
  handle_watchpoint_hit, handle_unresolved_watchpoint_hit, try_report_watchpoint_hit, find_match,
  select_hit_thread, find_breakpoint_hit_thread, find_watchpoint_hit_thread, report_other_stop,
  report_seen, report_stop, frame_up,
}
use macos_c_debugger_arm.Debugger.Watch.{
  after_step_past, step_past_all_watchpoints, disarm_enabled, find_watchpoint_hit,
}
use macos_c_debugger_arm.Kernel.{Kernel, Waited}
use macos_c_debugger_arm.Memory.{mem_read}
use macos_c_debugger_arm.Prelude.{
  by_if, by_option, ℕ, refl, inl, inr, not, ◌==◌, get_or, set, if◌then◌else◌, Option-cases,
}
use macos_c_debugger_arm.Regs.{regs_pc, regs_frame_up, regs_get_exception_state}
use macos_c_debugger_arm.Table.{live}
use macos_c_debugger_arm.Threads.{suspend_others}
use macos_c_debugger_arm.Watchpoint.{no_watchpoint, watchpoint_esr}

module _ (k : Kernel) where
  after_step_past-Keeps :
      (d : Cdbg) (w : k.World) (rc : Rc) → IsWellFormed d → Keeps k (after_step_past k d w rc)
  unfolding after_step_past
  after_step_past-Keeps d w ok h = by_if (Keeps k) (is_stopped d.state) h h
  after_step_past-Keeps d w exited h = h
  after_step_past-Keeps d w failed h = h

  step_past-Keeps :
      (rounds : ℕ) (d : Cdbg) (w : k.World)
      → IsWellFormed d
      → Keeps k (step_past_all_watchpoints k rounds d w)
  unfolding step_past_all_watchpoints
  step_past-Keeps rounds d w h =
      let w1 = disarm_enabled k w d.pid (live d.watchpoints) in
      let step = single_step k d w1 in
      let stepped = single_step-Keeps k d w1 h in
      let waited = wait k rounds step.0 step.1 in
      by_if (Keeps k) step.2
        (after_step_past-Keeps waited.0 waited.1 waited.2
          (wait-Keeps k rounds step.0 step.1 stepped))
        stepped

  retire-Keeps : (d : Cdbg) → IsWellFormed d → IsWellFormed (retire d)
  unfolding retire
  retire-Keeps d h = (BreakpointsFit-off d.breakpoints h.0, WatchpointsFit-off d.watchpoints h.1)

  pub report_process_exit-Keeps : (d : Cdbg) → IsWellFormed d → IsWellFormed (report_process_exit d)
  unfolding report_process_exit
  report_process_exit-Keeps d h = by_if IsWellFormed (is_idle d.state) (retire-Keeps d h) h

  after_kill-Keeps :
      (d : Cdbg) (w : k.World) (r : Waited) → IsWellFormed d → Keeps k (after_kill k d w r)
  unfolding after_kill
  after_kill-Keeps d w Waited.interrupted h = h
  after_kill-Keeps d w Waited.wait_error h = h
  after_kill-Keeps d w Waited.stopped h = retire-Keeps d h
  after_kill-Keeps d w (Waited.exited code) h = retire-Keeps d h
  after_kill-Keeps d w (Waited.signaled sig) h = retire-Keeps d h

  pub stop_debuggee-Keeps :
      (rounds : ℕ) (d : Cdbg) (w : k.World) → IsWellFormed d → Keeps k (stop_debuggee k rounds d w)
  unfolding stop_debuggee
  stop_debuggee-Keeps rounds d w h =
      let killed = k.kill (k.pt_detach w d.pid) d.pid in
      let waited = process_wait k rounds killed.0 d.pid in
      by_if (Keeps k) (d.pid == 0) h (
        by_if (Keeps k) (is_idle d.state) (retire-Keeps d h)
          (by_if (Keeps k) killed.1 (after_kill-Keeps d waited.0 waited.1 h) h))

  breakpoint_hit-Keeps :
      (d : Cdbg) (w : k.World) (i : ℕ) → IsWellFormed d → Keeps k (handle_breakpoint_hit k d w i)
  unfolding handle_breakpoint_hit refresh_regs
  breakpoint_hit-Keeps d w i h =
      let off = bp_disable k (get_or d.breakpoints.entries i no_breakpoint) w d.pid in
      let kept : BreakpointsFit _ × WatchpointsFit d.watchpoints =
        (BreakpointsFit-set d.breakpoints i off.0 h.0, h.1) in
      by_if (Keeps k) (not off.2) kept (
        by_if (Keeps k)
          (not
            (refresh_regs k
              (record d {
                breakpoints = record (d.breakpoints) {
                  entries = set d.breakpoints.entries i off.0;
                };
              })
              off.1).1)
          kept (by_if (Keeps k) (off.0.addr == 0) kept kept))

  record_value-Keeps :
      (d : Cdbg) (w : k.World) (i : ℕ) → IsWellFormed d → IsWellFormed (record_value k d w i)
  unfolding record_value
  record_value-Keeps d w i h =
      let wp = get_or d.watchpoints.entries i no_watchpoint in
      elim (Option-cases (mem_read k w d.pid wp.addr wp.size)) [
        | inl e ↦ rw (e, record_value) h
        | inr (bytes, e) ↦
            rw (e, record_value) (h.0, WatchpointsFit-set d.watchpoints i _ refl refl h.1)
      ]

  watchpoint_hit-Keeps :
      (rounds : ℕ) (d : Cdbg) (w : k.World) (i : ℕ)
      → IsWellFormed d
      → Keeps k (handle_watchpoint_hit k rounds d w i)
  unfolding handle_watchpoint_hit
  watchpoint_hit-Keeps rounds d w i h =
      let past = step_past_all_watchpoints k rounds d w in
      let kept = step_past-Keeps rounds d w h in
      by_if (Keeps k) (not past.2) kept (
        by_if (Keeps k) (not (is_stopped past.0.state)) (report_process_exit-Keeps past.0 kept)
          (record_value-Keeps past.0 past.1 i kept))

  unresolved_hit-Keeps :
      (rounds : ℕ) (d : Cdbg) (w : k.World)
      → IsWellFormed d
      → Keeps k (handle_unresolved_watchpoint_hit k rounds d w)
  unfolding handle_unresolved_watchpoint_hit
  unresolved_hit-Keeps rounds d w h =
      let past = step_past_all_watchpoints k rounds d w in
      let kept = step_past-Keeps rounds d w h in
      by_if (Keeps k) (not past.2) kept (
        by_if (Keeps k) (not (is_stopped past.0.state)) (report_process_exit-Keeps past.0 kept)
          kept)

  pub try_report-Keeps :
      (rounds : ℕ) (d : Cdbg) (w : k.World)
      → IsWellFormed d
      → Keeps k (try_report_watchpoint_hit k rounds d w)
  unfolding try_report_watchpoint_hit
  try_report-Keeps rounds d w h = by_if (Keeps k) (d.watchpoints.count == 0) h (
      by_option (Keeps k) (regs_get_exception_state k w d.pid d.current_tid) h (λ state.
        by_option (Keeps k) (watchpoint_esr state.1) h (λ is_write.
          by_option (Keeps k) (find_watchpoint_hit 0 state.0 (live d.watchpoints))
            (unresolved_hit-Keeps rounds d w h) (λ i. watchpoint_hit-Keeps rounds d w i h))))

  select-Keeps : (d : Cdbg) (w : k.World) → IsWellFormed d → IsWellFormed (select_hit_thread k d w)
  unfolding select_hit_thread
  select-Keeps d w h =
      let trapped = find_breakpoint_hit_thread k d w in
      let hit_tid = if trapped == 0 then find_watchpoint_hit_thread k d w else trapped in
      by_if IsWellFormed (hit_tid == 0) h h

  report_seen-Keeps :
      (rounds : ℕ) (d : Cdbg) (w : k.World) → IsWellFormed d → Keeps k (report_seen k rounds d w)
  unfolding report_seen report_other_stop
  report_seen-Keeps rounds d w h =
      let pc = regs_pc d.regs in
      let other = try_report-Keeps rounds d w h in
      by_if (Keeps k) (bp_is_trap pc (live d.breakpoints))
        (by_option (Keeps k) (find_match pc 0 (live d.breakpoints)) other
          (λ i. breakpoint_hit-Keeps d w i h))
        other

  pub report_stop-Keeps :
      (rounds : ℕ) (d : Cdbg) (w : k.World) → IsWellFormed d → Keeps k (report_stop k rounds d w)
  unfolding report_stop refresh_regs
  report_stop-Keeps rounds d w h =
      let d1 = select_hit_thread k d w in
      let w1 = (suspend_others k w d1.pid d1.current_tid).0 in
      let seen = refresh_regs k d1 w1 in
      let kept = select-Keeps d w h in
      by_if (Keeps k) seen.1 (report_seen-Keeps rounds seen.0 w1 kept) kept

  pub frame_up-Keeps : (d : Cdbg) (w : k.World) → IsWellFormed d → Keeps k (frame_up k d w)
  unfolding frame_up refresh_regs
  frame_up-Keeps d w h =
      let d1 = (refresh_regs k d w).0 in
      by_if (Keeps k) (not (refresh_regs k d w).1) h
        (by_option (Keeps k) (regs_frame_up k w d1.pid d1.regs) h (λ regs. h))
