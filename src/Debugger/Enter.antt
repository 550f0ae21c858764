-- ===== src/Debugger/Enter.antt =====
-- Entries are added to the tables: `cmd_break` and `cmd_watch` of src/debugger.c, once their target is known; and `cmd_thread`. The
-- address of a breakpoint is handed in; `locate` is the evaluation of the watched expression (address, size,
-- and whether it is a whole structure), and `allowed` is the answer of `cdbg_language_check_expr`.
use macos_c_debugger_arm.Breakpoint.{no_breakpoint, bp_enable}
use macos_c_debugger_arm.Debugger.State.{
  Cdbg, Result, max_breakpoints, is_idle, is_stopped, refresh_regs,
}
use macos_c_debugger_arm.Debugger.Watch.{find_free_watch_slot, arm_all_threads}
use macos_c_debugger_arm.Kernel.{Kernel}
use macos_c_debugger_arm.Memory.{mem_read}
use macos_c_debugger_arm.Prelude.{
  ℕ, ◌+◌, Bool, true, false, not, ◌||◌, Option, none, some, ◌==◌, leb, ltb, if◌then◌else◌,
  get_elem?, get_or, set, value_of,
}
use macos_c_debugger_arm.Table.{live}
use macos_c_debugger_arm.Threads.{threads_list, max_threads}
use macos_c_debugger_arm.Watchpoint.{Watchpoint, WatchKind, no_watchpoint, max_watchpoints}

-- What `cdbg_expr_eval_lvalue` tells `cmd_watch`.
pub record Located : Type 0 where
  pub addr : ℕ
  pub size : ℕ
  pub whole_struct : Bool

module _ (k : Kernel) where
  -- The place behind the last entry is written even where the breakpoint cannot be enabled.
  unfoldable pub add_breakpoint : Cdbg → k.World → ℕ → Result k Bool
  add_breakpoint d w addr =
      let table = d.breakpoints in
      let index = table.count in
      let (bp, w', done) = bp_enable k (get_or table.entries index no_breakpoint) w d.pid addr in
      let entries = set table.entries index bp in
      if leb max_breakpoints index
      then (d, w, false)
      else if done
      then (record d { breakpoints = record { entries = entries; count = index + 1 } }, w', true)
      else (record d { breakpoints = record table { entries = entries } }, w', false)

  -- The entry for a slot, with the value of the watched bytes where they can be read.
  unfoldable pub new_watchpoint : k.World → ℕ → Located → WatchKind → ℕ → Watchpoint
  new_watchpoint w pid target kind slot =
      let wp : Watchpoint = record {
        addr = target.addr;
        size = target.size;
        kind = kind;
        enabled = true;
        slot = slot;
        last_value = 0;
        has_last_value = false;
      } in
      elim (mem_read k w pid target.addr target.size) [
        | none ↦ wp
        | some bytes ↦ record wp { last_value = value_of bytes; has_last_value = true }
      ]

  -- From the choice of the slot on. A place that is given up is cleared again.
  unfoldable pub place_watchpoint : Cdbg → k.World → Located → WatchKind → ℕ → Result k Bool
  unfolding new_watchpoint
  place_watchpoint d w target kind slot =
      let table = d.watchpoints in
      let index = table.count in
      let asked : Watchpoint = record no_watchpoint {
        addr = target.addr;
        size = target.size;
        kind = kind;
        slot = slot;
      } in
      let (w', armed) = arm_all_threads k w d.pid asked in
      let wp = new_watchpoint w' d.pid target kind slot in
      if target.whole_struct
      then (d, w, false)
      else if target.size == 0 || ltb 8 target.size
      then (d, w, false)
      else if armed
      then (
        record d {
          watchpoints = record { entries = set table.entries index wp; count = index + 1 };
        },
        w',
        true,
      )
      else (
        record d { watchpoints = record table { entries = set table.entries index no_watchpoint } },
        w',
        false,
      )

  unfoldable pub add_watchpoint :
      (Cdbg → k.World → Option Located) → Bool → Cdbg → k.World → WatchKind → Result k Bool
  unfolding place_watchpoint
  add_watchpoint locate allowed d w kind =
      let (d1, read) = refresh_regs k d w in
      if d.pid == 0 || not (is_stopped d.state)
      then (d, w, false)
      else if not allowed
      then (d, w, false)
      else if not read
      then (d1, w, false)
      else if leb max_watchpoints d1.watchpoints.count
      then (d1, w, false)
      else elim (find_free_watch_slot (live d1.watchpoints)) [
        | none ↦ (d1, w, false)
        | some slot ↦ elim (locate d1 w) [
          | none ↦ (d1, w, false)
          | some target ↦ place_watchpoint d1 w target kind slot
        ]
      ]

  -- `cmd_thread`, for the number that is read.
  unfoldable pub select_thread : Cdbg → k.World → ℕ → Result k Bool
  select_thread d w number =
      if d.pid == 0 || is_idle d.state
      then (d, w, false)
      else elim (threads_list k w d.pid max_threads) [
        | none ↦ (d, w, false)
        | some threads ↦ elim (get_elem? threads number) [
          | none ↦ (d, w, false)
          | some thread ↦
              let (d1, read) = refresh_regs k (record d { current_tid = thread.tid }) w in
              (d1, w, read)
        ]
      ]
