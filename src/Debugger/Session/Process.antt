-- ===== src/Debugger/Session/Process.antt =====
-- The operations of src/debugger.c on the process keep the tables well formed: waiting and continuing.
use macos_c_debugger_arm.Breakpoint.{Breakpoint, bp_enable}
use macos_c_debugger_arm.Debugger.Control.{
  reenable_loop, reenable_breakpoints, after_wait, wait, disabled_at_pc,
  step_over_disabled_breakpoint, let_run, after_step_over, continue_process,
}
use macos_c_debugger_arm.Debugger.Session.Tables.{IsWellFormed}
use macos_c_debugger_arm.Debugger.State.{
  State, Rc, ok, exited, failed, Cdbg, is_idle, is_stopped, refresh_regs, single_step, process_wait,
}
use macos_c_debugger_arm.Kernel.{Kernel, Waited}
use macos_c_debugger_arm.Prelude.{
  by_if, ℕ, zero, suc, ◌≡◌, refl, ◌∙◌, not, ◌||◌, List, [], ◌∷◌, arith, ◌==◌, length,
}
use macos_c_debugger_arm.Regs.{regs_pc}
use macos_c_debugger_arm.Table.{live}
use macos_c_debugger_arm.Threads.{resume_others}

module _ (k : Kernel) where
  -- What a function returns is well formed.
  abbrev pub Keeps {ℓ} : {A : Type ℓ} → Cdbg × k.World × A → Type 0
  Keeps r = IsWellFormed r.0

  length-reenable_loop :
      (pid pc : ℕ) (w : k.World) (n : ℕ) (bps : List Breakpoint)
      → length (reenable_loop k pid pc w n bps).0 ≡ length bps
  unfolding reenable_loop
  length-reenable_loop pid pc w zero bps = refl
  length-reenable_loop pid pc w (suc n) [] = refl
  length-reenable_loop pid pc w (suc n) (bp ∷ bps) = ground (
    arith,
    length-reenable_loop pid pc w n bps,
    length-reenable_loop pid pc (bp_enable k bp w pid bp.addr).1 n bps,
  )

  reenable-Keeps : (d : Cdbg) (w : k.World) → IsWellFormed d → Keeps (reenable_breakpoints k d w)
  unfolding reenable_breakpoints refresh_regs
  reenable-Keeps d w h =
      let pc = regs_pc (refresh_regs k d w).0.regs in
      by_if Keeps (d.breakpoints.count == 0 || not (is_stopped d.state)) h (
        by_if Keeps (refresh_regs k d w).1
          (
            (
              length-reenable_loop d.pid pc w d.breakpoints.count d.breakpoints.entries ∙ h.0.0,
              h.0.1,
            ),
            h.1,
          )
          h)

  after_wait-Keeps :
      (d : Cdbg) (w : k.World) (r : Waited) → IsWellFormed d → Keeps (after_wait k d w r)
  unfolding after_wait
  after_wait-Keeps d w Waited.interrupted h = h
  after_wait-Keeps d w Waited.wait_error h = h
  after_wait-Keeps d w (Waited.exited code) h = h
  after_wait-Keeps d w (Waited.signaled sig) h = h
  after_wait-Keeps d w Waited.stopped h =
      reenable-Keeps (record d { wait_status = Waited.stopped; state = State.stopped }) w h

  pub wait-Keeps :
      (rounds : ℕ) (d : Cdbg) (w : k.World) → IsWellFormed d → Keeps (wait k rounds d w)
  unfolding wait
  wait-Keeps rounds d w h =
      after_wait-Keeps d (process_wait k rounds w d.pid).0 (process_wait k rounds w d.pid).1 h

  pub single_step-Keeps : (d : Cdbg) (w : k.World) → IsWellFormed d → Keeps (single_step k d w)
  unfolding single_step
  single_step-Keeps d w h = by_if Keeps (k.pt_step w d.pid).1 h h

  step_over-Keeps :
      (rounds : ℕ) (d : Cdbg) (w : k.World)
      → IsWellFormed d
      → Keeps (step_over_disabled_breakpoint k rounds d w)
  unfolding step_over_disabled_breakpoint refresh_regs
  step_over-Keeps rounds d w h =
      let d1 = (refresh_regs k d w).0 in
      let step = single_step k d1 w in
      let stepped = single_step-Keeps d1 w h in
      by_if Keeps (not (is_stopped d.state) || d.breakpoints.count == 0) h (
        by_if Keeps (not (refresh_regs k d w).1) h (
          by_if Keeps (not (disabled_at_pc (regs_pc d1.regs) (live d.breakpoints))) h
            (by_if Keeps step.2 (wait-Keeps rounds step.0 step.1 stepped) stepped)))

  after_step_over-Keeps :
      (d : Cdbg) (w : k.World) (rc : Rc) → IsWellFormed d → Keeps (after_step_over k d w rc)
  unfolding after_step_over let_run
  after_step_over-Keeps d w ok h =
      by_if Keeps (is_idle d.state) h
        (by_if Keeps (k.pt_continue (resume_others k w d.pid d.current_tid).0 d.pid).1 h h)
  after_step_over-Keeps d w exited h = h
  after_step_over-Keeps d w failed h = h

  pub continue-Keeps :
      (rounds : ℕ) (d : Cdbg) (w : k.World) → IsWellFormed d → Keeps (continue_process k rounds d w)
  unfolding continue_process
  continue-Keeps rounds d w h =
      let over = step_over_disabled_breakpoint k rounds d w in
      after_step_over-Keeps over.0 over.1 over.2 (step_over-Keeps rounds d w h)
