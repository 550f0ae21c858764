-- ===== src/Debugger/Tests.antt =====
-- The properties of the control of the process and of the watchpoints at concrete inputs.
use macos_c_debugger_arm.Breakpoint.{Breakpoint, bp_enable, bp_disable}
use macos_c_debugger_arm.Table.{live}
use macos_c_debugger_arm.Debugger.Backtrace.{
  frame_record_next, frames_loop, Climbs, frames_loop-Climbs,
}
use macos_c_debugger_arm.Debugger.Control.{
  disabled_at_pc, wait, after_wait, reenable_breakpoints, reenable_loop,
  step_over_disabled_breakpoint, let_run, after_step_over, continue_process,
}
use macos_c_debugger_arm.Debugger.Delete.{
  numbers, del, delete_selected, delete_listed, delete_each, delete_breakpoint_at, collect_indices,
  sort_indices, sort_loop, select_largest, contains,
}
use macos_c_debugger_arm.Debugger.Delete.Commands.{del-left_by}
use macos_c_debugger_arm.Debugger.Delete.Removal.{left_by}
use macos_c_debugger_arm.Debugger.State.{
  State, running, Cdbg, refresh_regs, single_step, process_wait,
}
use macos_c_debugger_arm.Debugger.Wait.{wait-Waits, Waits, IsSettled, continue_process_ok}
use macos_c_debugger_arm.Debugger.Watch.{find_free_watch_slot, free_slot_loop, slot_used}
use macos_c_debugger_arm.Kernel.{Waited, interrupted}
use macos_c_debugger_arm.Kernel.Cells.{peek}
use macos_c_debugger_arm.Kernel.Toy.{Process, toy, toy_process, toy_regs}
use macos_c_debugger_arm.Memory.{mem_read, mem_write, mem_write_mach}
use macos_c_debugger_arm.Prelude.{
  ◌==◌, if◌then◌else◌, length, ◌≤◌, ℕ, ◌≡◌, refl, true, false, some, List, [], ◌∷◌, arith,
}
use macos_c_debugger_arm.Regs.{Regs, regs_get, regs_pc}
use macos_c_debugger_arm.Threads.{
  resolve_port, enumerate_threads, resume_others, suspend_or_resume_others, others_loop, kept_tid,
  has_tid,
}
use macos_c_debugger_arm.Watchpoint.{Watchpoint, write}

-- Two breakpoints, both off: the process is stopped at the first.
abbrev here : Breakpoint
here = record { addr = 0x4000; saved_inst = 0; enabled = false }

abbrev ahead : Breakpoint
ahead = record { addr = 0x5000; saved_inst = 0; enabled = false }

abbrev old_regs : Regs
old_regs = record { native = record toy_regs { pc = 0 }; neon = (toy_process []).neon }

abbrev debugger : Cdbg
debugger = record {
  pid = 9;
  state = State.stopped;
  wait_status = Waited.stopped;
  current_tid = 0;
  regs = old_regs;
  breakpoints = record { entries = here ∷ ahead ∷ []; count = 2 };
  watchpoints = record { entries = []; count = 0 };
}

-- A wait that is interrupted twice, then reports a stop; and one that reports at once.
abbrev slow : Process
slow = toy_process (interrupted ∷ interrupted ∷ Waited.stopped ∷ [])

abbrev prompt : Process
prompt = toy_process (Waited.stopped ∷ [])

wait-Waits_example :
    Waits
      (toy true)
      debugger
      (wait (toy true) 3 debugger prompt).0
      (wait (toy true) 3 debugger prompt).2
wait-Waits_example = wait-Waits (toy true) 3 debugger prompt

abbrev after_continue : Cdbg
after_continue = (continue_process (toy true) 3 debugger prompt).0

continue_process_ok_example :
    (after_continue.state ≡ running)
    × (disabled_at_pc (regs_pc (refresh_regs (toy true) debugger prompt).0.regs) (here ∷ ahead ∷ [])
          ≡ true
        → IsSettled after_continue)
continue_process_ok_example = continue_process_ok (toy true) 3 debugger prompt refl (
    unfold continue_process after_step_over let_run resume_others suspend_or_resume_others
      others_loop kept_tid has_tid step_over_disabled_breakpoint refresh_regs regs_get resolve_port
      enumerate_threads disabled_at_pc single_step wait process_wait after_wait reenable_breakpoints
      reenable_loop bp_enable mem_read mem_write mem_write_mach peek in
    refl)

abbrev watch_in : ℕ → Watchpoint
watch_in slot = record {
  addr = 0x8000;
  size = 4;
  kind = write;
  enabled = true;
  slot = slot;
  last_value = 0;
  has_last_value = false;
}

abbrev watched : List Watchpoint
watched = watch_in 0 ∷ watch_in 2 ∷ []

slot_runs : find_free_watch_slot watched ≡ some 1
unfolding find_free_watch_slot free_slot_loop slot_used
slot_runs = refl

sort_runs : sort_indices (1 ∷ 4 ∷ 0 ∷ 2 ∷ []) ≡ 4 ∷ 2 ∷ 1 ∷ 0 ∷ []
unfolding sort_indices sort_loop select_largest
sort_runs = refl

-- `del 1 1` and `delwatch all`.
del-left_by_example :
    live (del (toy true) debugger prompt (numbers (some 1 ∷ some 1 ∷ []))).0.breakpoints
    ≡ left_by (numbers (some 1 ∷ some 1 ∷ [])) (here ∷ ahead ∷ [])
del-left_by_example =
    del-left_by (toy true) debugger prompt (numbers (some 1 ∷ some 1 ∷ [])) (omega arith) (
      unfold del delete_selected delete_listed delete_each collect_indices contains sort_indices
        sort_loop select_largest delete_breakpoint_at bp_disable in
      refl)

abbrev watching : Cdbg
watching = record debugger { pid = 0; watchpoints = record { entries = watched; count = 2 } }

-- A process with one frame record, at 0x100: the caller's is at 0x200, and it returns to 0x4010.
abbrev framed : Process
framed = record (toy_process []) {
  memory =
      λ a. if a == 0x101 then 2 else if a == 0x108 then 0x10 else if a == 0x109 then 0x40 else 0;
}

frames_run : frames_loop (toy true) 63 framed 9 0x100 ≡ (0x200, 0x4010) ∷ []
unfolding frames_loop frame_record_next mem_read peek
frames_run = refl

frames_loop-Climbs_example :
    Climbs (toy true) framed 9 0x100 (frames_loop (toy true) 63 framed 9 0x100)
    × (length (frames_loop (toy true) 63 framed 9 0x100) ≤ 63)
frames_loop-Climbs_example = frames_loop-Climbs (toy true) framed 9 63 0x100
