-- ===== src/Debugger/Session.antt =====
-- `cdbg_repl` of src/debugger.c: one command after the other. A command is handed in as it has been parsed; those
-- that only print, and those that set variables, are left out.
pub mod Tables
pub mod Process
pub mod Stops
pub mod Lines
pub mod Commands
pub mod Reach
mod Tests
use macos_c_debugger_arm.Debugger.Control.{wait, continue_process}
use macos_c_debugger_arm.Debugger.Delete.{Selection, del, delwatch}
use macos_c_debugger_arm.Debugger.Enter.{Located, add_breakpoint, add_watchpoint, select_thread}
use macos_c_debugger_arm.Debugger.Run.{run}
use macos_c_debugger_arm.Debugger.State.{
  Rc, Cdbg, Result, is_idle, is_stopped, refresh_regs, single_step,
}
use macos_c_debugger_arm.Debugger.Step.{is_ok, step_next_line, next_source_line}
use macos_c_debugger_arm.Debugger.Stop.{report_process_exit, report_stop, frame_up, stop_debuggee}
use macos_c_debugger_arm.Kernel.{Kernel}
use macos_c_debugger_arm.Lineno.{Lineno}
use macos_c_debugger_arm.Prelude.{
  ℕ, Bool, true, false, not, ◌&&◌, ◌||◌, Option, if◌then◌else◌, ◌==◌,
}
use macos_c_debugger_arm.Watchpoint.{WatchKind}

pub data Command : Type 0 where
  empty start go step_line step_instruction next_line up regs kill quit : Command
  break_at thread : ℕ → Command
  delete delete_watch : Selection → Command
  watch : WatchKind → Command

-- Whether the loop goes on, or ends with 0 or -1.
pub data Verdict : Type 0 where
  goes_on quits gives_up : Verdict

module _ (k : Kernel) where
  -- What the commands need besides the debugger: the bound for waits, the lines, the address for the first stop,
  -- and for a watch the evaluation of its expression and whether the language allows one.
  pub record Settings : Type 0 where
    pub rounds : ℕ
    pub lineno : Lineno
    pub entry : Option ℕ
    pub locate : Cdbg → k.World → Option Located
    pub allowed : Bool

  -- What follows a wait, in CDBG_CMD_CONTINUE and in CDBG_CMD_SI.
  unfoldable pub after_move : ℕ → Cdbg → k.World → Rc → Result k Verdict
  after_move rounds d w rc =
      let (d', w', reported) = report_stop k rounds d w in
      if not (is_ok rc)
      then (report_process_exit d, w, (if is_idle d.state then goes_on else gives_up))
      else if is_stopped d.state
      then (d', w', goes_on)
      else (report_process_exit d, w, goes_on)

  unfoldable pub perform_go : ℕ → Cdbg → k.World → Result k Verdict
  unfolding after_move
  perform_go rounds d w =
      let (d1, w1, rc1) = continue_process k rounds d w in
      let (d2, w2, rc2) = wait k rounds d1 w1 in
      if is_idle d.state
      then (d, w, goes_on)
      else if not (is_ok rc1)
      then (d1, w1, gives_up)
      else if is_idle d1.state
      then (report_process_exit d1, w1, goes_on)
      else after_move rounds d2 w2 rc2

  unfoldable pub perform_step_instruction : ℕ → Cdbg → k.World → Result k Verdict
  unfolding after_move
  perform_step_instruction rounds d w =
      let (d1, w1, stepped) = single_step k d w in
      let (d2, w2, rc) = wait k rounds d1 w1 in
      if is_idle d.state
      then (d, w, goes_on)
      else if not stepped
      then (d1, w1, gives_up)
      else after_move rounds d2 w2 rc

  -- CDBG_CMD_STEP and CDBG_CMD_NEXT, with what the step has left.
  unfoldable pub after_lines : Cdbg → k.World → Result k Bool → Result k Verdict
  after_lines d w (d1, w1, done) =
      if is_idle d.state
      then (d, w, goes_on)
      else if not done && not (is_idle d1.state)
      then (d1, w1, gives_up)
      else (report_process_exit d1, w1, goes_on)

  -- The result of a command that is dropped.
  abbrev pub dropped : Result k Bool → Result k Verdict
  dropped (d, w, done) = (d, w, goes_on)

  unfoldable pub perform : Settings → Command → Cdbg → k.World → Result k Verdict
  unfolding perform_go perform_step_instruction after_lines
  perform s empty d w = (d, w, goes_on)
  perform s start d w = dropped (run k s.rounds s.entry d w)
  perform s go d w = perform_go s.rounds d w
  perform s step_line d w = after_lines d w (step_next_line k s.rounds s.lineno d w)
  perform s step_instruction d w = perform_step_instruction s.rounds d w
  perform s next_line d w = after_lines d w (next_source_line k s.rounds s.lineno d w)
  perform s up d w = dropped (frame_up k d w)
  perform s regs d w =
      let (d', read) = refresh_regs k d w in (d', w, (if read then goes_on else gives_up))
  perform s kill d w =
      if d.pid == 0 || is_idle d.state
      then (d, w, goes_on)
      else dropped (stop_debuggee k s.rounds d w)
  perform s quit d w = let (d', w', done) = stop_debuggee k s.rounds d w in (d', w', quits)
  perform s (break_at addr) d w = dropped (add_breakpoint k d w addr)
  perform s (thread number) d w = dropped (select_thread k d w number)
  perform s (delete selection) d w = dropped (del k d w selection)
  perform s (delete_watch selection) d w = dropped (delwatch k d w selection)
  perform s (watch kind) d w = dropped (add_watchpoint k s.locate s.allowed d w kind)
