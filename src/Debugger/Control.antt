-- ===== src/Debugger/Control.antt =====
-- Waiting for the process and letting it go on: `cdbg_wait`, `cdbg_continue` and their helpers in
-- src/debugger.c.
use macos_c_debugger_arm.Breakpoint.{Breakpoint, bp_enable}
use macos_c_debugger_arm.Debugger.State.{
  State, idle, running, Rc, ok, exited, failed, Cdbg, is_idle, is_stopped, Result, refresh_regs,
  single_step, process_wait,
}
use macos_c_debugger_arm.Kernel.{Kernel, Waited}
use macos_c_debugger_arm.Prelude.{
  ℕ, zero, suc, Bool, true, false, not, ◌&&◌, ◌||◌, List, [], ◌∷◌, ◌==◌, if◌then◌else◌,
}
use macos_c_debugger_arm.Regs.{regs_pc}
use macos_c_debugger_arm.Table.{live}
use macos_c_debugger_arm.Threads.{resume_others}

-- Whether `disabled_breakpoint_at_pc` finds one.
unfoldable pub disabled_at_pc : ℕ → List Breakpoint → Bool
disabled_at_pc pc [] = false
disabled_at_pc pc (bp ∷ bps) =
    if not bp.enabled && bp.addr == pc then true else disabled_at_pc pc bps

-- A breakpoint that `reenable_breakpoints_after_step` puts back.
abbrev pub is_due : ℕ → Breakpoint → Bool
is_due pc bp = not bp.enabled && not (bp.addr == pc)

module _ (k : Kernel) where
  -- The loop over the entries in use, `count` of them; it stops at the first that cannot be enabled.
  unfoldable pub reenable_loop :
      ℕ → ℕ → k.World → ℕ → List Breakpoint → List Breakpoint × k.World × Bool
  reenable_loop pid pc w zero bps = (bps, w, true)
  reenable_loop pid pc w (suc count) [] = ([], w, true)
  reenable_loop pid pc w (suc count) (bp ∷ bps) =
      let (bp', w', done) = if is_due pc bp then bp_enable k bp w pid bp.addr else (bp, w, true) in
      let (rest, w'', all_done) = reenable_loop pid pc w' count bps in
      if done then (bp' ∷ rest, w'', all_done) else (bp' ∷ bps, w', false)

  unfoldable pub reenable_breakpoints : Cdbg → k.World → Result k Bool
  reenable_breakpoints d w =
      if d.breakpoints.count == 0 || not (is_stopped d.state)
      then (d, w, true)
      else (let (d', read) = refresh_regs k d w in
          let (bps, w', done) =
            reenable_loop d.pid (regs_pc d'.regs) w d.breakpoints.count d.breakpoints.entries in
          if read
          then (record d' { breakpoints = record (d.breakpoints) { entries = bps } }, w', done)
          else (d', w, false))

  -- What `cdbg_wait` does with a status. The last clause is a stop.
  unfoldable pub after_wait : Cdbg → k.World → Waited → Result k Rc
  after_wait d w Waited.interrupted = (d, w, failed)
  after_wait d w Waited.wait_error = (d, w, failed)
  after_wait d w (Waited.exited code) =
      (record d { wait_status = Waited.exited code; state = idle }, w, Rc.exited)
  after_wait d w (Waited.signaled sig) =
      (record d { wait_status = Waited.signaled sig; state = idle }, w, Rc.exited)
  after_wait d w Waited.stopped =
      let (d', w', done) =
        reenable_breakpoints (record d { wait_status = Waited.stopped; state = State.stopped }) w in
      (d', w', if done then ok else failed)

  unfoldable pub wait : ℕ → Cdbg → k.World → Result k Rc
  wait rounds d w = let (w', status) = process_wait k rounds w d.pid in after_wait d w' status

  unfoldable pub step_over_disabled_breakpoint : ℕ → Cdbg → k.World → Result k Rc
  step_over_disabled_breakpoint rounds d w =
      if not (is_stopped d.state) || d.breakpoints.count == 0
      then (d, w, ok)
      else (let (d1, read) = refresh_regs k d w in
          let (d2, w2, stepped) = single_step k d1 w in
          if not read
          then (d1, w, failed)
          else if not (disabled_at_pc (regs_pc d1.regs) (live d1.breakpoints))
          then (d1, w, ok)
          else if stepped
          then wait rounds d2 w2
          else (d2, w2, failed))

  -- PT_CONTINUE, with the other threads resumed first.
  unfoldable pub let_run : Cdbg → k.World → Result k Rc
  let_run d w =
      let w1 = (resume_others k w d.pid d.current_tid).0 in
      let (w2, done) = k.pt_continue w1 d.pid in
      if done then (record d { state = running }, w2, ok) else (d, w2, failed)

  unfoldable pub after_step_over : Cdbg → k.World → Rc → Result k Rc
  after_step_over d w ok = if is_idle d.state then (d, w, ok) else let_run d w
  after_step_over d w exited = (d, w, exited)
  after_step_over d w failed = (d, w, failed)

  unfoldable pub continue_process : ℕ → Cdbg → k.World → Result k Rc
  continue_process rounds d w =
      let (d1, w1, rc) = step_over_disabled_breakpoint rounds d w in after_step_over d1 w1 rc
