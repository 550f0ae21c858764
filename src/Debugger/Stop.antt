-- ===== src/Debugger/Stop.antt =====
-- The report of a stop and the end of a process: `handle_breakpoint_hit` to `report_stop`, `stop_debuggee` and
-- `cdbg_frame_up` of src/debugger.c.
pub mod Hit
pub mod End
pub mod Report
mod Tests
use macos_c_debugger_arm.Breakpoint.{
  Breakpoint, no_breakpoint, bp_disable, bp_is_trap, bp_matches_pc,
}
use macos_c_debugger_arm.Debugger.State.{
  State, idle, Cdbg, is_idle, is_stopped, Result, refresh_regs, process_wait,
}
use macos_c_debugger_arm.Debugger.Watch.{find_watchpoint_hit, step_past_all_watchpoints}
use macos_c_debugger_arm.Kernel.{Kernel, Waited}
use macos_c_debugger_arm.Memory.{mem_read}
use macos_c_debugger_arm.Prelude.{
  ℕ, zero, suc, ◌+◌, Bool, true, false, not, Option, none, some, List, [], ◌∷◌, ◌==◌, if◌then◌else◌,
  get_or, set, value_of,
}
use macos_c_debugger_arm.Regs.{
  regs_pc, regs_set_pc, regs_set, regs_get_exception_state, regs_frame_up,
}
use macos_c_debugger_arm.Table.{Table, live}
use macos_c_debugger_arm.Threads.{ThreadEntry, threads_list, max_threads, suspend_others}
use macos_c_debugger_arm.Watchpoint.{Watchpoint, no_watchpoint, watchpoint_esr}

-- for (i = 0; i < count; i++) entries[i] = f(entries[i])
unfoldable pub map_first : {A : Type 0} → (A → A) → ℕ → List A → List A
map_first f zero xs = xs
map_first f (suc count) [] = []
map_first f (suc count) (x ∷ xs) = f x ∷ map_first f count xs

-- The process is gone: every breakpoint and watchpoint is off, and there is no pid.
unfoldable pub retire : Cdbg → Cdbg
unfolding map_first
retire d = record d {
  pid = 0;
  breakpoints = record (d.breakpoints) {
    entries =
        map_first (λ bp. record bp { enabled = false }) d.breakpoints.count d.breakpoints.entries;
  };
  watchpoints = record (d.watchpoints) {
    entries =
        map_first (λ wp. record wp { enabled = false }) d.watchpoints.count d.watchpoints.entries;
  };
}

unfoldable pub report_process_exit : Cdbg → Cdbg
unfolding retire
report_process_exit d = if is_idle d.state then retire d else d

-- The first breakpoint that matches, counted from `i`.
unfoldable pub find_match : ℕ → ℕ → List Breakpoint → Option ℕ
find_match pc i [] = none
find_match pc i (bp ∷ bps) = if bp_matches_pc pc bp then some i else find_match pc (i + 1) bps

-- The first of the threads that stands at a trap, or 0.
unfoldable pub first_trapped : List Breakpoint → List ThreadEntry → ℕ
first_trapped bps [] = 0
first_trapped bps (t ∷ ts) = if bp_is_trap t.pc bps then t.tid else first_trapped bps ts

module _ (k : Kernel) where
  -- The end of `stop_debuggee`, by the status that the wait has stored.
  unfoldable pub after_kill : Cdbg → k.World → Waited → Result k Bool
  unfolding retire
  after_kill d w Waited.interrupted = (d, w, false)
  after_kill d w Waited.wait_error = (d, w, false)
  after_kill d w status = (retire (record d { wait_status = status; state = idle }), w, true)

  unfoldable pub stop_debuggee : ℕ → Cdbg → k.World → Result k Bool
  unfolding after_kill retire
  stop_debuggee rounds d w =
      let (w2, killed) = k.kill (k.pt_detach w d.pid) d.pid in
      let (w3, status) = process_wait k rounds w2 d.pid in
      if d.pid == 0
      then (record d { state = idle }, w, true)
      else if is_idle d.state
      then (retire d, w, true)
      else if killed
      then after_kill d w3 status
      else (d, w2, false)

  unfoldable pub handle_breakpoint_hit : Cdbg → k.World → ℕ → Result k Bool
  handle_breakpoint_hit d w index =
      let (bp, w1, off) = bp_disable k (get_or d.breakpoints.entries index no_breakpoint) w d.pid in
      let d1 : Cdbg = record d {
        breakpoints = record (d.breakpoints) { entries = set d.breakpoints.entries index bp };
      } in
      let (d2, read) = refresh_regs k d1 w1 in
      let d3 : Cdbg = record d2 { regs = regs_set_pc d2.regs bp.addr } in
      let (w3, stored) = regs_set k w1 d3.pid d3.current_tid d3.regs in
      if not off
      then (d1, w1, false)
      else if not read
      then (d2, w1, false)
      else if bp.addr == 0
      then (d2, w1, true)
      else (d3, w3, stored)

  -- The value that the access has left is kept in the watchpoint, where it can be read.
  unfoldable pub record_value : Cdbg → k.World → ℕ → Cdbg
  record_value d w index =
      let wp = get_or d.watchpoints.entries index no_watchpoint in
      elim (mem_read k w d.pid wp.addr wp.size) [
        | none ↦ d
        | some bytes ↦
            let seen : Watchpoint = record wp {
              last_value = value_of bytes;
              has_last_value = true;
            } in
            record d {
              watchpoints = record (d.watchpoints) {
                entries = set d.watchpoints.entries index seen;
              };
            }
      ]

  unfoldable pub handle_watchpoint_hit : ℕ → Cdbg → k.World → ℕ → Result k Bool
  unfolding record_value
  handle_watchpoint_hit rounds d w index =
      let (d1, w1, past) = step_past_all_watchpoints k rounds d w in
      if not past
      then (d1, w1, false)
      else if not (is_stopped d1.state)
      then (report_process_exit d1, w1, true)
      else (record_value d1 w1 index, w1, true)

  unfoldable pub handle_unresolved_watchpoint_hit : ℕ → Cdbg → k.World → Result k Bool
  handle_unresolved_watchpoint_hit rounds d w =
      let (d1, w1, past) = step_past_all_watchpoints k rounds d w in
      if not past
      then (d1, w1, false)
      else if not (is_stopped d1.state)
      then (report_process_exit d1, w1, true)
      else (d1, w1, true)

  -- Whether a watchpoint was hit; the results of the handlers are dropped.
  unfoldable pub try_report_watchpoint_hit : ℕ → Cdbg → k.World → Result k Bool
  unfolding handle_watchpoint_hit handle_unresolved_watchpoint_hit
  try_report_watchpoint_hit rounds d w =
      if d.watchpoints.count == 0
      then (d, w, false)
      else elim (regs_get_exception_state k w d.pid d.current_tid) [
        | none ↦ (d, w, false)
        | some (fault, esr) ↦ elim (watchpoint_esr esr) [
          | none ↦ (d, w, false)
          | some is_write ↦
              let handled : Result k Bool =
                elim (find_watchpoint_hit 0 fault (live d.watchpoints)) [
                  | none ↦ handle_unresolved_watchpoint_hit rounds d w
                  | some index ↦ handle_watchpoint_hit rounds d w index
                ] in
              (handled.0, handled.1, true)
        ]
      ]

  unfoldable pub find_breakpoint_hit_thread : Cdbg → k.World → ℕ
  unfolding first_trapped
  find_breakpoint_hit_thread d w =
      if d.breakpoints.count == 0 then 0 else elim (threads_list k w d.pid max_threads) [
        | none ↦ 0
        | some threads ↦ first_trapped (live d.breakpoints) threads
      ]

  -- The first thread with the exception of a watchpoint, or 0.
  unfoldable pub first_watching : k.World → ℕ → List ThreadEntry → ℕ
  first_watching w pid [] = 0
  first_watching w pid (t ∷ ts) =
      let later = first_watching w pid ts in
      elim (regs_get_exception_state k w pid t.tid) [
        | none ↦ later
        | some (fault, esr) ↦ elim (watchpoint_esr esr) [ none ↦ later | some is_write ↦ t.tid ]
      ]

  unfoldable pub find_watchpoint_hit_thread : Cdbg → k.World → ℕ
  unfolding first_watching
  find_watchpoint_hit_thread d w =
      if d.watchpoints.count == 0 then 0 else elim (threads_list k w d.pid max_threads) [
        | none ↦ 0
        | some threads ↦ first_watching w d.pid threads
      ]

  -- The debugger with the thread selected that has caused the stop.
  unfoldable pub select_hit_thread : Cdbg → k.World → Cdbg
  unfolding find_breakpoint_hit_thread find_watchpoint_hit_thread
  select_hit_thread d w =
      let trapped = find_breakpoint_hit_thread d w in
      let hit_tid = if trapped == 0 then find_watchpoint_hit_thread d w else trapped in
      if hit_tid == 0 then d else record d { current_tid = hit_tid }

  -- Both ends of the function return 0.
  unfoldable pub report_other_stop : ℕ → Cdbg → k.World → Result k Bool
  unfolding try_report_watchpoint_hit
  report_other_stop rounds d w =
      let (d', w', hit) = try_report_watchpoint_hit rounds d w in (d', w', true)

  -- The part of `report_stop` after the registers have been read.
  unfoldable pub report_seen : ℕ → Cdbg → k.World → Result k Bool
  unfolding report_other_stop handle_breakpoint_hit find_match
  report_seen rounds d w =
      let pc = regs_pc d.regs in
      let other = report_other_stop rounds d w in
      if bp_is_trap pc (live d.breakpoints)
      then elim (find_match pc 0 (live d.breakpoints)) [
        | none ↦ other
        | some index ↦ handle_breakpoint_hit d w index
      ]
      else other

  unfoldable pub report_stop : ℕ → Cdbg → k.World → Result k Bool
  unfolding select_hit_thread report_seen
  report_stop rounds d w =
      let d1 = select_hit_thread d w in
      let w1 = (suspend_others k w d1.pid d1.current_tid).0 in
      let (d2, read) = refresh_regs k d1 w1 in
      if read then report_seen rounds d2 w1 else (d2, w1, false)

  -- The registers are new even where they cannot be stored.
  unfoldable pub frame_up : Cdbg → k.World → Result k Bool
  frame_up d w =
      let (d1, read) = refresh_regs k d w in
      if not read then (d1, w, false) else elim (regs_frame_up k w d1.pid d1.regs) [
        | none ↦ (d1, w, false)
        | some regs ↦
            let d2 : Cdbg = record d1 { regs = regs } in
            let (w', stored) = regs_set k w d1.pid d1.current_tid regs in (d2, w', stored)
      ]
