-- ===== src/Values/Tests.antt =====
-- The scalars of a process at concrete inputs.
use macos_c_debugger_arm.Kernel.Cells.{peek, poke}
use macos_c_debugger_arm.Kernel.Toy.{toy, toy_cells, toy_process, toy-VmLaws}
use macos_c_debugger_arm.Memory.{mem_read, mem_write, mem_write_mach}
use macos_c_debugger_arm.Prelude.{ℕ, ◌≡◌, refl, true, arith, []}
use macos_c_debugger_arm.Values.{read_scalar_value, write_scalar_value}
use macos_c_debugger_arm.Values.Widths.{read_scalar_value-write_scalar_value}

read_scalar_value-write_scalar_value_example : ◌≡◌ {A = ℕ} 0x1234 0x1234
read_scalar_value-write_scalar_value_example =
    read_scalar_value-write_scalar_value (toy true) toy_cells (toy-VmLaws true) (toy_process []) 9
      0x4000 2 0x1234 0x1234 (omega arith) (omega arith)
      (unfold write_scalar_value mem_write mem_write_mach in refl)
      (unfold read_scalar_value write_scalar_value mem_read mem_write mem_write_mach peek poke in
        refl)
