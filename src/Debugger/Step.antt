-- ===== src/Debugger/Step.antt =====
-- Steps by source lines: `call_return_address` to `step_over_call`, `cdbg_step_next_line` and
-- `cdbg_next_source_line` of src/debugger.c. The table of lines is a parameter, since no step changes it.
use macos_c_debugger_arm.Breakpoint.{
  Breakpoint, no_breakpoint, bp_enable, bp_disable, bp_is_trap, bp_matches_pc,
}
use macos_c_debugger_arm.Debugger.Control.{wait, continue_process}
use macos_c_debugger_arm.Debugger.State.{
  Rc, ok, exited, failed, Cdbg, is_idle, is_stopped, Result, refresh_regs, single_step,
}
use macos_c_debugger_arm.Debugger.Stop.{report_stop, try_report_watchpoint_hit}
use macos_c_debugger_arm.Kernel.{Kernel}
use macos_c_debugger_arm.Lineno.{LineEntry, Lineno, entry_at_pc, same_text}
use macos_c_debugger_arm.Memory.{mem_read}
use macos_c_debugger_arm.Prelude.{
  ℕ, zero, suc, ◌+◌, Bool, true, false, not, ◌&&◌, Option, none, some, ◌==◌, if◌then◌else◌, bit_and,
  u64, value_of,
}
use macos_c_debugger_arm.Regs.{regs_pc}
use macos_c_debugger_arm.Table.{live}

-- CDBG_MAX_STEP_ITERATIONS
abbrev pub max_step_iterations : ℕ
max_step_iterations = 100000

-- Whether a wait has returned 0.
abbrev pub is_ok : Rc → Bool
is_ok ok = true
is_ok exited = false
is_ok failed = false

module _ (k : Kernel) where
  -- For a BL at `pc`, the address behind it.
  unfoldable pub call_return_address : k.World → ℕ → ℕ → Option ℕ
  call_return_address w pid pc = elim (mem_read k w pid pc 4) [
    | none ↦ none
    | some bytes ↦
        if bit_and (value_of bytes) 0xfc000000 == 0x94000000 then some (u64 (pc + 4)) else none
  ]

  -- The temporary breakpoint is a variable of the caller and is not used again.
  unfoldable pub finish_temp_breakpoint : ℕ → Cdbg → k.World → Breakpoint → Result k Bool
  finish_temp_breakpoint rounds d w temp_bp =
      let (d1, read) = refresh_regs k d w in
      let (temp_bp', w1, off) = bp_disable k temp_bp w d.pid in
      if not read
      then (d1, w1, false)
      else if bp_matches_pc (regs_pc d1.regs) temp_bp
      then (d1, w1, off)
      else report_stop k rounds d1 w1

  -- After the wait, with the temporary breakpoint still set.
  unfoldable pub after_call : ℕ → Cdbg → k.World → Rc → Breakpoint → Result k Bool
  unfolding finish_temp_breakpoint
  after_call rounds d w rc temp_bp =
      let dropped = (bp_disable k temp_bp w d.pid).1 in
      if not (is_ok rc)
      then (d, dropped, is_idle d.state)
      else if not (is_stopped d.state)
      then (d, dropped, true)
      else finish_temp_breakpoint rounds d w temp_bp

  unfoldable pub step_over_call : ℕ → Cdbg → k.World → ℕ → Result k Bool
  unfolding after_call
  step_over_call rounds d w return_addr =
      let (temp_bp, w1, set) = bp_enable k no_breakpoint w d.pid return_addr in
      let (d2, w2, rc) = continue_process k rounds d w1 in
      let dropped = (bp_disable k temp_bp w2 d2.pid).1 in
      let (d3, w3, rc3) = wait k rounds d2 w2 in
      if not set
      then (d, w1, false)
      else if not (is_ok rc)
      then (d2, dropped, false)
      else if is_idle d2.state
      then (d2, dropped, true)
      else after_call rounds d3 w3 rc3 temp_bp

  -- One move of the loops: `none` where the process has stopped and the loop goes on, else the result.
  unfoldable pub step_and_wait : ℕ → Cdbg → k.World → Result k (Option Bool)
  step_and_wait rounds d w =
      let (d1, w1, stepped) = single_step k d w in
      let (d2, w2, rc) = wait k rounds d1 w1 in
      if not stepped
      then (d1, w1, some false)
      else if not (is_ok rc)
      then (d2, w2, some (is_idle d2.state))
      else (d2, w2, (if is_stopped d2.state then none else some true))

  unfoldable pub call_or_step : ℕ → Cdbg → k.World → ℕ → Result k (Option Bool)
  unfolding step_and_wait step_over_call call_return_address
  call_or_step rounds d w pc = elim (call_return_address w d.pid pc) [
    | none ↦ step_and_wait rounds d w
    | some return_addr ↦
        let (d1, w1, over) = step_over_call rounds d w return_addr in
        if not over
        then (d1, w1, some false)
        else (d1, w1, (if is_stopped d1.state then none else some true))
  ]

  -- A step where the line is not known, whose report's result is dropped.
  unfoldable pub step_blindly : ℕ → Cdbg → k.World → Result k Bool
  unfolding step_and_wait
  step_blindly rounds d w =
      let (d1, w1, over) = step_and_wait rounds d w in
      let (d2, w2, reported) = report_stop k rounds d1 w1 in
      elim over [ none ↦ (d2, w2, true) | some result ↦ (d1, w1, result) ]

  -- What the loops do when the process has stopped again: `none` where the line is still the same or is not
  -- known.
  unfoldable pub check_line : ℕ → Lineno → LineEntry → Cdbg → k.World → Result k (Option Bool)
  check_line rounds ln start d w =
      let (d1, read) = refresh_regs k d w in
      let pc = regs_pc d1.regs in
      let (d2, w2, reported) = report_stop k rounds d1 w in
      let (d3, w3, hit) = try_report_watchpoint_hit k rounds d1 w in
      let moved : Option Bool = elim (entry_at_pc ln pc) [
        | none ↦ none
        | some now ↦
            if same_text now.file start.file && now.line == start.line then none else some true
      ] in
      if not read
      then (d1, w, some false)
      else if bp_is_trap pc (live d1.breakpoints)
      then (d2, w2, some reported)
      else if hit
      then (d3, w3, some true)
      else (d3, w3, moved)

  -- The loops, with the iterations left as fuel: without any, "Step limit exceeded". `over_calls` tells
  -- `cdbg_next_source_line` from `cdbg_step_next_line`.
  unfoldable pub line_loop : ℕ → Lineno → LineEntry → Bool → ℕ → Cdbg → k.World → Result k Bool
  unfolding step_and_wait call_or_step check_line
  line_loop rounds ln start over_calls zero d w = (d, w, false)
  line_loop rounds ln start over_calls (suc iterations) d w =
      let (d1, w1, ended) =
        if over_calls then call_or_step rounds d w (regs_pc d.regs) else step_and_wait rounds d w in
      let (d2, w2, found) = check_line rounds ln start d1 w1 in
      let again = line_loop rounds ln start over_calls iterations d2 w2 in
      elim ended [
        | some result ↦ (d1, w1, result)
        | none ↦ elim found [ none ↦ again | some result ↦ (d2, w2, result) ]
      ]

  unfoldable pub step_lines : ℕ → Lineno → Bool → Cdbg → k.World → Result k Bool
  unfolding step_blindly line_loop
  step_lines rounds ln over_calls d w =
      let (d1, read) = refresh_regs k d w in
      if not read then (d1, w, false) else elim (entry_at_pc ln (regs_pc d1.regs)) [
        | none ↦ step_blindly rounds d1 w
        | some start ↦ line_loop rounds ln start over_calls max_step_iterations d1 w
      ]

  unfoldable pub step_next_line : ℕ → Lineno → Cdbg → k.World → Result k Bool
  unfolding step_lines
  step_next_line rounds ln d w = step_lines rounds ln false d w

  unfoldable pub next_source_line : ℕ → Lineno → Cdbg → k.World → Result k Bool
  unfolding step_lines
  next_source_line rounds ln d w = step_lines rounds ln true d w
