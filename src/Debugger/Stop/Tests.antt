-- ===== src/Debugger/Stop/Tests.antt =====
-- The report of a stop and the end of a process at concrete inputs: two breakpoints, the first of which both
-- threads stand at.
use macos_c_debugger_arm.Breakpoint.{Breakpoint, bp_disable, bp_is_trap, bp_matches_pc}
use macos_c_debugger_arm.Debugger.State.{State, Cdbg, refresh_regs, process_wait}
use macos_c_debugger_arm.Debugger.Stop.{
  select_hit_thread, find_breakpoint_hit_thread, first_trapped, find_match, handle_breakpoint_hit,
  report_seen, report_stop, stop_debuggee, after_kill,
}
use macos_c_debugger_arm.Debugger.Stop.End.{IsGone, stop_debuggee-IsGone}
use macos_c_debugger_arm.Debugger.Stop.Hit.{Handled}
use macos_c_debugger_arm.Debugger.Stop.Report.{Matches, stop_seen, report_stop-Handled}
use macos_c_debugger_arm.Kernel.{Waited}
use macos_c_debugger_arm.Kernel.Toy.{Process, toy, toy_process}
use macos_c_debugger_arm.Memory.{mem_write, mem_write_mach}
use macos_c_debugger_arm.Prelude.{ℕ, refl, true, List, [], ◌∷◌, arith}
use macos_c_debugger_arm.Regs.{regs_pc, regs_get, regs_set, regs_set_pc}
use macos_c_debugger_arm.Threads.{
  ThreadEntry, threads_list, list_loop, thread_entry, enumerate_threads, resolve_port, find_port,
  has_tid, suspend_others, suspend_or_resume_others, others_loop, kept_tid,
}

abbrev process : Process
process = toy_process (Waited.stopped ∷ [])

abbrev armed : List Breakpoint
armed =
    record { addr = 0x4000; saved_inst = 0; enabled = true }
    ∷ record { addr = 0x5000; saved_inst = 0; enabled = true }
    ∷ []

abbrev debugger : Cdbg
debugger = record {
  pid = 9;
  state = State.stopped;
  wait_status = Waited.stopped;
  current_tid = 0;
  regs = record { native = process.regs; neon = process.neon };
  breakpoints = record { entries = armed; count = 2 };
  watchpoints = record { entries = []; count = 0 };
}

abbrev threads : List ThreadEntry
threads = record { tid = 101; pc = 0x4000 } ∷ record { tid = 102; pc = 0x4000 } ∷ []

report_stop-Handled_example :
    (index : ℕ) × Matches (regs_pc (stop_seen (toy true) debugger process).0.regs) armed index
    × Handled
        (toy true)
        (stop_seen (toy true) debugger process).0
        (report_stop (toy true) 1 debugger process).0
        index
report_stop-Handled_example =
    report_stop-Handled (toy true) 1 debugger process (omega arith)
      (unfold refresh_regs regs_get select_hit_thread find_breakpoint_hit_thread threads_list
          list_loop enumerate_threads thread_entry first_trapped bp_is_trap bp_matches_pc
          resolve_port find_port has_tid suspend_others suspend_or_resume_others others_loop
          kept_tid in
        refl)
      (unfold report_stop report_seen find_match handle_breakpoint_hit bp_disable mem_write
          mem_write_mach regs_set regs_set_pc refresh_regs regs_get select_hit_thread
          find_breakpoint_hit_thread threads_list list_loop enumerate_threads thread_entry
          first_trapped bp_is_trap bp_matches_pc resolve_port find_port has_tid suspend_others
          suspend_or_resume_others others_loop kept_tid in
        refl)

abbrev killed : Process
killed = toy_process (Waited.signaled 9 ∷ [])

stop_debuggee-IsGone_example : IsGone (stop_debuggee (toy true) 2 debugger killed).0
stop_debuggee-IsGone_example =
    stop_debuggee-IsGone (toy true) 2 debugger killed (λ e. omega arith)
      (unfold stop_debuggee after_kill process_wait in refl)
