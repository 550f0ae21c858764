-- ===== src/Breakpoint/Tests.antt =====
-- The properties of breakpoints at concrete inputs.
use macos_c_debugger_arm.Breakpoint.{Breakpoint, no_breakpoint, bp_enable, bp_disable}
use macos_c_debugger_arm.Breakpoint.Restore.{trap_bytes, bp_disable-bp_enable, stacked_breakpoints}
use macos_c_debugger_arm.Kernel.Cells.{peek, poke}
use macos_c_debugger_arm.Kernel.Toy.{toy, toy_cells, toy_process, toy-ExactMemory, Process}
use macos_c_debugger_arm.Memory.{mem_read, mem_write, mem_write_mach}
use macos_c_debugger_arm.Prelude.{ℕ, ◌≡◌, refl, true, false, [], ◌∷◌, arith}

abbrev start : Process
start = toy_process []

abbrev armed : Breakpoint
armed = record { addr = 0x4000; saved_inst = 0x07070707; enabled = true }

enable_runs :
    ((bp_enable (toy true) no_breakpoint start 9 0x4000).0 ≡ armed)
    × (peek (bp_enable (toy true) no_breakpoint start 9 0x4000).1.memory 0x4000 5
        ≡ 0 ∷ 0 ∷ 0x20 ∷ 0xd4 ∷ 7 ∷ [])
unfolding bp_enable mem_read mem_write mem_write_mach peek poke
enable_runs = (refl, refl)

bp_disable-bp_enable_example :
    ((bp_disable (toy true) (bp_enable (toy true) no_breakpoint start 9 0x4000).0 start 9).0.enabled
      ≡ false)
    × ((c : ℕ)
        → (bp_disable
              (toy true)
              (bp_enable (toy true) no_breakpoint start 9 0x4000).0
              start
              9).1.memory
            c
          ≡ poke start.memory 0x4000 (peek start.memory 0x4000 4) c)
bp_disable-bp_enable_example =
    bp_disable-bp_enable (toy true) toy_cells toy-ExactMemory no_breakpoint start start 9 0x4000
      (omega arith) (λ c. omega arith)
      (unfold bp_enable mem_read mem_write mem_write_mach peek in refl)
      (unfold bp_enable bp_disable mem_read mem_write mem_write_mach peek in refl)

-- The toy process after the first and after both of two enables at one address.
abbrev once : Process
once = (bp_enable (toy true) no_breakpoint start 9 0x4000).1

stacked_breakpoints_example :
    (bp_disable (toy true) (bp_enable (toy true) no_breakpoint once 9 0x4000).0 start 9).1.memory
      0x4002
    ≡ poke start.memory 0x4000 trap_bytes 0x4002
stacked_breakpoints_example =
    stacked_breakpoints (toy true) toy_cells toy-ExactMemory no_breakpoint no_breakpoint start start
      9 0x4000 (omega arith) (unfold bp_enable mem_read mem_write mem_write_mach peek in refl)
      (unfold bp_enable mem_read mem_write mem_write_mach peek poke in refl)
      (unfold bp_enable bp_disable mem_read mem_write mem_write_mach peek poke in refl) 0x4002
