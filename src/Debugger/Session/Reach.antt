-- ===== src/Debugger/Session/Reach.antt =====
-- What every session of `cdbg_repl` (src/debugger.c) keeps to.
use macos_c_debugger_arm.Breakpoint.{no_breakpoint, bp_enable, bp_matches_pc}
use macos_c_debugger_arm.Debugger.Control.{wait, continue_process}
use macos_c_debugger_arm.Debugger.Run.{
  EntryStop, missed, reached, broken, cleared, initial, run_to_addr, run_to_entry_stop, after_entry,
  after_spawn, run,
}
use macos_c_debugger_arm.Debugger.Session.{
  Command, empty, start, go, step_line, step_instruction, next_line, up, regs, kill, quit, break_at,
  thread, delete, delete_watch, watch, Settings, after_move, perform_go, perform_step_instruction,
  after_lines, perform,
}
use macos_c_debugger_arm.Debugger.Session.Commands.{
  add_breakpoint-Keeps, add_watchpoint-Keeps, select_thread-Keeps, del-Keeps, delwatch-Keeps,
}
use macos_c_debugger_arm.Debugger.Session.Lines.{step_lines-Keeps}
use macos_c_debugger_arm.Debugger.Session.Process.{
  Keeps, wait-Keeps, single_step-Keeps, continue-Keeps,
}
use macos_c_debugger_arm.Debugger.Session.Stops.{
  report_process_exit-Keeps, stop_debuggee-Keeps, report_stop-Keeps, frame_up-Keeps,
}
use macos_c_debugger_arm.Debugger.Session.Tables.{IsWellFormed}
use macos_c_debugger_arm.Debugger.State.{
  State, Rc, Cdbg, Result, is_idle, is_stopped, refresh_regs, single_step,
}
use macos_c_debugger_arm.Debugger.Step.{is_ok, step_next_line, next_source_line}
use macos_c_debugger_arm.Debugger.Stop.{stop_debuggee}
use macos_c_debugger_arm.Kernel.{Kernel}
use macos_c_debugger_arm.Prelude.{
  by_if, by_option, ℕ, refl, Bool, true, false, not, ◌&&◌, ◌||◌, Option, arith, ◌==◌,
}
use macos_c_debugger_arm.Regs.{regs_pc}

-- Empty tables are well formed, whatever was there before.
cleared-IsWellFormed : (d : Cdbg) → IsWellFormed (cleared d)
unfolding cleared
cleared-IsWellFormed d = ((refl, omega arith), (refl, omega arith, tt))

module _ (k : Kernel) where
  run_to_addr-Keeps :
      (rounds addr : ℕ) (d : Cdbg) (w : k.World)
      → IsWellFormed d
      → Keeps k (run_to_addr k rounds addr d w)
  unfolding run_to_addr refresh_regs
  run_to_addr-Keeps rounds addr d w h =
      let temp = bp_enable k no_breakpoint w d.pid addr in
      let went = continue_process k rounds d temp.1 in
      let kept2 = continue-Keeps k rounds d temp.1 h in
      let waited = wait k rounds went.0 went.1 in
      let kept3 = wait-Keeps k rounds went.0 went.1 kept2 in
      let seen = refresh_regs k waited.0 waited.1 in
      by_if (Keeps k) (not temp.2) h (
        by_if (Keeps k) (not (is_ok went.2)) kept2 (
          by_if (Keeps k) (not (is_ok waited.2)) kept3 (
            by_if (Keeps k) (not (is_stopped waited.0.state)) kept3 (
              by_if (Keeps k) (not seen.1) kept3 (
                by_if (Keeps k) (not (bp_matches_pc (regs_pc seen.0.regs) temp.0)) kept3
                  (by_if (Keeps k) (addr == 0) kept3 kept3))))))

  after_entry-Keeps :
      (d : Cdbg) (w : k.World) (e : EntryStop) → IsWellFormed d → Keeps k (after_entry k d w e)
  unfolding after_entry refresh_regs
  after_entry-Keeps d w reached h = h
  after_entry-Keeps d w broken h = report_process_exit-Keeps k d h
  after_entry-Keeps d w missed h = by_if IsWellFormed (is_stopped d.state) h h

  after_spawn-Keeps :
      (rounds : ℕ) (entry : Option ℕ) (d : Cdbg) (w : k.World)
      → IsWellFormed d
      → Keeps k (after_spawn k rounds entry d w)
  unfolding after_spawn run_to_entry_stop
  after_spawn-Keeps rounds entry d w h =
      let waited = wait k rounds d w in
      let kept = wait-Keeps k rounds d w h in
      let entered = run_to_entry_stop k rounds entry waited.0 waited.1 in
      let kept2 : IsWellFormed entered.0 = by_if (Keeps k) (not (is_stopped waited.0.state)) kept (
        by_option (Keeps k) entry kept
          (λ addr. run_to_addr-Keeps rounds addr waited.0 waited.1 kept)) in
      by_if (Keeps k) (is_ok waited.2) (after_entry-Keeps entered.0 entered.1 entered.2 kept2)
        (report_process_exit-Keeps k waited.0 kept)

  run-Keeps :
      (rounds : ℕ) (entry : Option ℕ) (d : Cdbg) (w : k.World)
      → IsWellFormed d
      → Keeps k (run k rounds entry d w)
  unfolding run
  run-Keeps rounds entry d w h =
      let stopped = stop_debuggee k rounds d w in
      let spawned = k.spawn stopped.1 in
      let fresh = cleared-IsWellFormed stopped.0 in
      by_if (Keeps k) (not stopped.2) (stop_debuggee-Keeps k rounds d w h) (
        by_option (Keeps k) spawned.1 fresh (λ pid.
          after_spawn-Keeps rounds entry
            (record (cleared stopped.0) { pid = pid; state = State.running }) spawned.0 fresh))

  after_move-Keeps :
      (rounds : ℕ) (d : Cdbg) (w : k.World) (rc : Rc)
      → IsWellFormed d
      → Keeps k (after_move k rounds d w rc)
  unfolding after_move
  after_move-Keeps rounds d w rc h =
      by_if (Keeps k) (not (is_ok rc)) (report_process_exit-Keeps k d h) (
        by_if (Keeps k) (is_stopped d.state) (report_stop-Keeps k rounds d w h)
          (report_process_exit-Keeps k d h))

  go-Keeps :
      (rounds : ℕ) (d : Cdbg) (w : k.World) → IsWellFormed d → Keeps k (perform_go k rounds d w)
  unfolding perform_go
  go-Keeps rounds d w h =
      let went = continue_process k rounds d w in
      let kept = continue-Keeps k rounds d w h in
      let waited = wait k rounds went.0 went.1 in
      by_if (Keeps k) (is_idle d.state) h (
        by_if (Keeps k) (not (is_ok went.2)) kept (
          by_if (Keeps k) (is_idle went.0.state) (report_process_exit-Keeps k went.0 kept) (
            after_move-Keeps rounds waited.0 waited.1 waited.2
              (wait-Keeps k rounds went.0 went.1 kept))))

  step_instruction-Keeps :
      (rounds : ℕ) (d : Cdbg) (w : k.World)
      → IsWellFormed d
      → Keeps k (perform_step_instruction k rounds d w)
  unfolding perform_step_instruction
  step_instruction-Keeps rounds d w h =
      let step = single_step k d w in
      let kept = single_step-Keeps k d w h in
      let waited = wait k rounds step.0 step.1 in
      by_if (Keeps k) (is_idle d.state) h (
        by_if (Keeps k) (not step.2) kept (
          after_move-Keeps rounds waited.0 waited.1 waited.2
            (wait-Keeps k rounds step.0 step.1 kept)))

  after_lines-Keeps :
      (d : Cdbg) (w : k.World) (r : Result k Bool)
      → IsWellFormed d
      → Keeps k r
      → Keeps k (after_lines k d w r)
  unfolding after_lines
  after_lines-Keeps d w (d1, w1, done) h kept = by_if (Keeps k) (is_idle d.state) h (
      by_if (Keeps k) (not done && not (is_idle d1.state)) kept
        (report_process_exit-Keeps k d1 kept))

  perform-Keeps :
      (s : Settings k) (c : Command) (d : Cdbg) (w : k.World)
      → IsWellFormed d
      → Keeps k (perform k s c d w)
  unfolding perform refresh_regs step_next_line next_source_line
  perform-Keeps s empty d w h = h
  perform-Keeps s start d w h = run-Keeps s.rounds s.entry d w h
  perform-Keeps s go d w h = go-Keeps s.rounds d w h
  perform-Keeps s step_line d w h =
      after_lines-Keeps d w (step_next_line k s.rounds s.lineno d w) h
        (step_lines-Keeps k s.rounds s.lineno false d w h)
  perform-Keeps s step_instruction d w h = step_instruction-Keeps s.rounds d w h
  perform-Keeps s next_line d w h =
      after_lines-Keeps d w (next_source_line k s.rounds s.lineno d w) h
        (step_lines-Keeps k s.rounds s.lineno true d w h)
  perform-Keeps s up d w h = frame_up-Keeps k d w h
  perform-Keeps s regs d w h = h
  perform-Keeps s kill d w h =
      by_if (Keeps k) (d.pid == 0 || is_idle d.state) h (stop_debuggee-Keeps k s.rounds d w h)
  perform-Keeps s quit d w h = stop_debuggee-Keeps k s.rounds d w h
  perform-Keeps s (break_at addr) d w h = add_breakpoint-Keeps k d w addr h
  perform-Keeps s (thread number) d w h = select_thread-Keeps k d w number h
  perform-Keeps s (delete selection) d w h = del-Keeps k d w selection h
  perform-Keeps s (delete_watch selection) d w h = delwatch-Keeps k d w selection h
  perform-Keeps s (watch kind) d w h = add_watchpoint-Keeps k s.locate s.allowed d w kind h

  -- The states of a session: it begins as `cdbg_init` leaves it, runs commands with any settings, and between
  -- them the system may change in any way.
  pub data Reached : Cdbg → k.World → Type 0 where
    begins : (w : k.World) → Reached initial w
    performs :
        {d : Cdbg} {w : k.World} (s : Settings k) (c : Command)
        → Reached d w
        → Reached (perform k s c d w).0 (perform k s c d w).1
    meanwhile : {d : Cdbg} {w : k.World} (w' : k.World) → Reached d w → Reached d w'

  -- In every state of a session that has begun with the initial debugger, whatever the commands, their
  -- settings and the changes of the system between them have been, both tables have the length of their
  -- arrays and a count within it, and the enabled watchpoints in use have slots of the hardware, each a
  -- different one.
  pub Reached-IsWellFormed : (d : Cdbg) (w : k.World) → Reached d w → IsWellFormed d
  unfolding initial cleared
  Reached-IsWellFormed d w (begins w0) = ((refl, omega arith), (refl, omega arith, tt))
  Reached-IsWellFormed d w (performs {d = d'} {w = w'} s c before) =
      perform-Keeps s c d' w' (Reached-IsWellFormed d' w' before)
  Reached-IsWellFormed d w (meanwhile {d = d'} {w = w'} now before) =
      Reached-IsWellFormed d w' before
