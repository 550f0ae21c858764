-- ===== src/Memory/Tests.antt =====
-- Runs of the memory layer over the toy system, and the properties at concrete inputs.
use macos_c_debugger_arm.Kernel.Cells.{peek, poke}
use macos_c_debugger_arm.Kernel.Toy.{toy, toy_cells, toy_process, toy-VmLaws}
use macos_c_debugger_arm.Memory.{mem_read, mem_write, mem_write_ptrace}
use macos_c_debugger_arm.Memory.Contents.{mem_write_spills}
use macos_c_debugger_arm.Prelude.{ℕ, ◌+◌, ◌≡◌, refl, true, false, some, List, [], ◌∷◌, arith}

abbrev three : List ℕ
three = 1 ∷ 2 ∷ 3 ∷ []

read_runs : mem_read (toy true) (toy_process []) 9 0x4000 3 ≡ some (7 ∷ 7 ∷ 7 ∷ [])
unfolding mem_read peek
read_runs = refl

-- Three bytes, then the spill of the last PT_WRITE_D.
spill_runs :
    peek (mem_write (toy false) (toy_process []) 9 0x4000 three).0.memory 0x4000 7
    ≡ 1 ∷ 2 ∷ 3 ∷ 0 ∷ 0 ∷ 0 ∷ 7 ∷ []
unfolding mem_write mem_write_ptrace peek poke
spill_runs = refl

mem_write_spills_example :
    (mem_write (toy false) (toy_process []) 9 0x4000 three).0.memory (0x4000 + (3 + 1)) ≡ 0
mem_write_spills_example =
    mem_write_spills (toy false) toy_cells (toy-VmLaws false) (toy_process []) 9 0x4000 1
      (2 ∷ 3 ∷ []) 1 (omega arith) (omega arith) refl (unfold mem_write mem_write_ptrace in refl)
      (omega arith)
