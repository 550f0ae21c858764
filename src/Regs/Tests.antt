-- ===== src/Regs/Tests.antt =====
-- The step to the caller's frame at concrete inputs: the memory holds 7 everywhere, and the link register
-- 0x5000.
use macos_c_debugger_arm.Kernel.Toy.{Process, toy, toy_process, toy_regs}
use macos_c_debugger_arm.Prelude.{
  ℕ, ◌-◌, ◌≡◌, List, ◌∷◌, Option, some, replicate, arith, refl, true, [],
}
use macos_c_debugger_arm.Regs.{Regs}
use macos_c_debugger_arm.Regs.Names.{
  first_char, index_behind, behind_first, in_range, regs_get_by_name, regs_set_by_name,
}
use macos_c_debugger_arm.Regs.SetGet.{regs_get_by_name-regs_set_by_name}
use macos_c_debugger_arm.Lineno.{same_text}

abbrev process : Process
process = toy_process []

abbrev leaf : Regs
leaf = record { native = record toy_regs { lr = 0x5000; sp = 0x8000 }; neon = process.neon }

abbrev caller : Regs
caller = record {
  native = record toy_regs { pc = 0x5000; lr = 0x5000; sp = 0x8010 };
  neon = process.neon;
}

-- A `strtol` for one digit.
abbrev one_digit : List ℕ → Option ℕ × List ℕ
one_digit [] = (some 0, [])
one_digit (d ∷ ds) = (some (d - 48), ds)

abbrev wide : Regs
wide = record {
  native = record toy_regs { x = replicate 29 0 };
  neon = record { v = replicate 32 0; fpsr = 0; fpcr = 0 };
}

-- "x7"
abbrev x7_text : List ℕ
x7_text = 120 ∷ 55 ∷ []

regs_get_by_name-regs_set_by_name_example :
    regs_get_by_name one_digit
      (regs_set_by_name one_digit (toy true) process 9 101 wide x7_text 42).0
      x7_text
    ≡ some 42
unfolding same_text first_char index_behind behind_first in_range
regs_get_by_name-regs_set_by_name_example =
    regs_get_by_name-regs_set_by_name one_digit (toy true) process 9 101 wide x7_text 42
      (record { general = refl; vectors = refl }) (omega arith)
