-- ===== src/Debugger/Session/Tests.antt =====
-- The loop of commands at concrete inputs.
use macos_c_debugger_arm.Debugger.Run.{initial}
use macos_c_debugger_arm.Debugger.Session.{Settings, break_at, perform}
use macos_c_debugger_arm.Debugger.Session.Reach.{Reached, Reached-IsWellFormed}
use macos_c_debugger_arm.Debugger.Session.Tables.{IsWellFormed}
use macos_c_debugger_arm.Debugger.State.{Cdbg}
use macos_c_debugger_arm.Kernel.Toy.{Process, toy, toy_process}
use macos_c_debugger_arm.Prelude.{true, none, []}

abbrev settings : Settings (toy true)
settings = record {
  rounds = 3;
  lineno = record { entries = []; slide = 0 };
  entry = none;
  locate = λ d w. none;
  allowed = true;
}

abbrev process : Process
process = toy_process []

abbrev with_breakpoint : Cdbg
with_breakpoint = (perform (toy true) settings (break_at 0x4000) initial process).0

Reached-IsWellFormed_example : IsWellFormed with_breakpoint
Reached-IsWellFormed_example =
    Reached-IsWellFormed (toy true) with_breakpoint
      (perform (toy true) settings (break_at 0x4000) initial process).1
      (Reached.performs settings (break_at 0x4000) (Reached.begins process))
