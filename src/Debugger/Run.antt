-- ===== src/Debugger/Run.antt =====
-- `cdbg_run` of src/debugger.c, `cdbg_init`, and the way to the first stop. Loading the symbols is left out: the
-- tables of symbols and lines are handed in as they are after it.
use macos_c_debugger_arm.Breakpoint.{no_breakpoint, bp_enable, bp_disable, bp_matches_pc}
use macos_c_debugger_arm.Debugger.Control.{wait, continue_process}
use macos_c_debugger_arm.Debugger.State.{
  idle, running, Cdbg, Result, is_stopped, refresh_regs, max_breakpoints,
}
use macos_c_debugger_arm.Debugger.Step.{is_ok}
use macos_c_debugger_arm.Debugger.Stop.{report_process_exit, stop_debuggee}
use macos_c_debugger_arm.Kernel.{Kernel, Waited}
use macos_c_debugger_arm.Lineno.{
  LineEntry, Lineno, best_by, runtime_addr, lookup_next_line_after_pc,
}
use macos_c_debugger_arm.Prelude.{
  ℕ, Bool, true, false, not, ◌||◌, Option, none, some, List, [], ◌∷◌, ◌==◌, ltb, if◌then◌else◌,
  replicate,
}
use macos_c_debugger_arm.Regs.{Regs, regs_pc, regs_set_pc, regs_set}
use macos_c_debugger_arm.Syms.{Syms, lookup_name, syms_runtime_addr}
use macos_c_debugger_arm.Watchpoint.{no_watchpoint, max_watchpoints}

-- "main"
abbrev pub main_name : List ℕ
main_name = 109 ∷ 97 ∷ 105 ∷ 110 ∷ []

-- The line of the body's beginning: that after the address, or else the lowest from the address on.
unfoldable pub first_body_line : Lineno → ℕ → Option LineEntry
unfolding lookup_next_line_after_pc best_by
first_body_line ln addr = elim (lookup_next_line_after_pc ln addr) [
  | some e ↦ some e
  | none ↦
      best_by (λ e. not (ltb (runtime_addr ln e.address) addr))
        (λ e first. ltb e.address first.address) none ln.entries
]

unfoldable pub resolve_entry_stop_addr : Syms → Lineno → Option ℕ
unfolding first_body_line lookup_name
resolve_entry_stop_addr syms ln = elim (lookup_name syms main_name) [
  | none ↦ none
  | some sym ↦
      let addr = syms_runtime_addr syms sym.address in
      if sym.address == 0 || (sym.type == 85 || sym.type == 117)
      then none
      else elim (first_body_line ln addr) [
        | none ↦ some addr
        | some e ↦ some (runtime_addr ln e.address)
      ]
]

-- The results 0, 1 and -1 of `run_to_entry_stop`.
pub data EntryStop : Type 0 where
  missed reached broken : EntryStop

abbrev pub zero_regs : Regs
zero_regs = record {
  native = record { x = replicate 29 0; fp = 0; lr = 0; sp = 0; pc = 0; cpsr = 0 };
  neon = record { v = replicate 32 0; fpsr = 0; fpcr = 0 };
}

-- Both tables empty and the registers cleared; a wait status of 0 is that of an exit with code 0.
unfoldable pub cleared : Cdbg → Cdbg
cleared d = record d {
  breakpoints = record { entries = replicate max_breakpoints no_breakpoint; count = 0 };
  watchpoints = record { entries = replicate max_watchpoints no_watchpoint; count = 0 };
  regs = zero_regs;
  wait_status = Waited.exited 0;
}

-- `cdbg_init`
unfoldable pub initial : Cdbg
unfolding cleared
initial = cleared (record {
  pid = 0;
  state = idle;
  wait_status = Waited.exited 0;
  current_tid = 0;
  regs = zero_regs;
  breakpoints = record { entries = []; count = 0 };
  watchpoints = record { entries = []; count = 0 };
})

module _ (k : Kernel) where
  -- From the temporary breakpoint at the entry on.
  unfoldable pub run_to_addr : ℕ → ℕ → Cdbg → k.World → Result k EntryStop
  run_to_addr rounds addr d w =
      let (temp_bp, w1, set) = bp_enable k no_breakpoint w d.pid addr in
      let (d2, w2, rc2) = continue_process k rounds d w1 in
      let (d3, w3, rc3) = wait k rounds d2 w2 in
      let (d4, read) = refresh_regs k d3 w3 in
      let w4 = (bp_disable k temp_bp w3 d.pid).1 in
      let d5 : Cdbg = record d4 { regs = regs_set_pc d4.regs addr } in
      let (w5, stored) = regs_set k w4 d5.pid d5.current_tid d5.regs in
      if not set
      then (d, w1, broken)
      else if not (is_ok rc2)
      then (d2, (bp_disable k temp_bp w2 d.pid).1, broken)
      else if not (is_ok rc3)
      then (d3, w4, broken)
      else if not (is_stopped d3.state)
      then (d3, w4, missed)
      else if not read
      then (d4, w4, broken)
      else if not (bp_matches_pc (regs_pc d4.regs) temp_bp)
      then (d4, w4, missed)
      else if addr == 0
      then (d4, w4, reached)
      else (d5, w5, (if stored then reached else broken))

  unfoldable pub run_to_entry_stop : ℕ → Option ℕ → Cdbg → k.World → Result k EntryStop
  unfolding run_to_addr
  run_to_entry_stop rounds entry d w =
      if not (is_stopped d.state)
      then (d, w, missed)
      else elim entry [ none ↦ (d, w, missed) | some addr ↦ run_to_addr rounds addr d w ]

  -- What `cdbg_run` does with the result.
  unfoldable pub after_entry : Cdbg → k.World → EntryStop → Result k Bool
  after_entry d w reached = (d, w, true)
  after_entry d w broken = (report_process_exit d, w, false)
  after_entry d w missed = ((if is_stopped d.state then (refresh_regs k d w).0 else d), w, true)

  -- The first wait, after the process has been started.
  unfoldable pub after_spawn : ℕ → Option ℕ → Cdbg → k.World → Result k Bool
  unfolding run_to_entry_stop after_entry
  after_spawn rounds entry d w =
      let (d1, w1, rc) = wait k rounds d w in
      let (d2, w2, entered) = run_to_entry_stop rounds entry d1 w1 in
      if is_ok rc then after_entry d2 w2 entered else (report_process_exit d1, w1, false)

  unfoldable pub run : ℕ → Option ℕ → Cdbg → k.World → Result k Bool
  unfolding cleared after_spawn
  run rounds entry d w =
      let (d1, w1, gone) = stop_debuggee k rounds d w in
      let (w2, child) = k.spawn w1 in
      let d2 = cleared d1 in
      if not gone then (d1, w1, false) else elim child [
        | none ↦ (d2, w2, false)
        | some pid ↦ after_spawn rounds entry (record d2 { pid = pid; state = running }) w2
      ]
