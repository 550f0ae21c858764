-- ===== src/Watchpoint/Tests.antt =====
-- The properties of src/watchpoint.c at concrete inputs: four bytes at 0x8004 in slot 1.
use macos_c_debugger_arm.Kernel.{DebugState}
use macos_c_debugger_arm.Kernel.Toy.{Process, toy_process}
use macos_c_debugger_arm.Prelude.{ℕ, ◌+◌, ◌≤◌, ◌<◌, ◌≡◌, ◌↔◌, refl, true, false, [], get_or, arith}
use macos_c_debugger_arm.Watchpoint.{Watchpoint, write, request_fits, program_slot, watch_addr_hit}
use macos_c_debugger_arm.Watchpoint.Arm.{watch_addr_hit-Selects}
use macos_c_debugger_arm.Watchpoint.Mask.{Selects, program_slot-Selects}

abbrev process : Process
process = toy_process []

abbrev registers : DebugState
registers = process.debug

abbrev word : Watchpoint
word = record {
  addr = 0x8004;
  size = 4;
  kind = write;
  enabled = true;
  slot = 1;
  last_value = 0;
  has_last_value = false;
}

program_slot-Selects_example :
    Selects
      (get_or (program_slot registers 1 0x8004 4 write).wvr 1 0)
      (get_or (program_slot registers 1 0x8004 4 write).wcr 1 0)
      0x8006
    ↔ ((0x8004 ≤ 0x8006) × (0x8006 < 0x8004 + 4))
program_slot-Selects_example =
    program_slot-Selects registers 1 0x8004 4 write 0x8006 (omega arith) (omega arith) (omega arith)
      (unfold request_fits in refl)

abbrev two : ℕ
two = 2

watch_addr_hit-Selects_example :
    (watch_addr_hit word 0x8006 ≡ true)
    ↔ Selects
        (get_or (program_slot registers 1 0x8004 4 write).wvr 1 0)
        (get_or (program_slot registers 1 0x8004 4 write).wcr 1 0)
        0x8006
watch_addr_hit-Selects_example =
    watch_addr_hit-Selects word registers 0x8006 refl (omega arith) (omega arith) (omega arith)
      (unfold request_fits in refl)
