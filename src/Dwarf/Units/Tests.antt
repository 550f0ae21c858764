-- ===== src/Dwarf/Units/Tests.antt =====
-- The units of `.debug_line` at concrete inputs.
use macos_c_debugger_arm.Dwarf.{read_u16}
use macos_c_debugger_arm.Dwarf.Program.{FileName}
use macos_c_debugger_arm.Dwarf.Units.{
  LineTable, TableOutcome, units_loop, parse_line_table, parse_unit,
}
use macos_c_debugger_arm.Dwarf.Units.Ends.{
  section_of, all_units, parse_line_table-section_of, units_loop-tail,
}
use macos_c_debugger_arm.Dwarf.Leb.{last}
use macos_c_debugger_arm.Dwarf.Tables.{parse_v5_file_names}
use macos_c_debugger_arm.Dwarf.Tables.Files.{Files, no_files, file, parse_v5_file_names-Files}
use macos_c_debugger_arm.Prelude.{value, ℕ, ◌≡◌, refl, List, [], ◌∷◌, ◌++◌, replicate, arith}

abbrev empty : LineTable
empty = record { entries = []; comp_dir = [] }

-- A unit of version 4 with the file "c" and the directory "s": its first row is for the address 0x1000.
abbrev header : List ℕ
header =
    4
      ∷ 1
      ∷ 251
      ∷ 14
      ∷ 13
      ∷ 0
      ∷ 1
      ∷ 1
      ∷ 1
      ∷ 1
      ∷ 0
      ∷ 0
      ∷ 0
      ∷ 1
      ∷ 0
      ∷ 0
      ∷ 1
      ∷ 115
      ∷ 0
      ∷ 0
      ∷ 99
      ∷ 0
      ∷ 1
      ∷ replicate 16 0
    ++ (0 ∷ [])

abbrev program : List ℕ
program = 0 ∷ 9 ∷ 2 ∷ 0 ∷ 16 ∷ 0 ∷ 0 ∷ 0 ∷ 0 ∷ 0 ∷ 0 ∷ 1 ∷ 0 ∷ 1 ∷ 1 ∷ []

abbrev unit : List ℕ
unit = 4 ∷ 0 ∷ 40 ∷ 0 ∷ 0 ∷ 0 ∷ header ++ program

abbrev other : List ℕ
other = 3 ∷ 0 ∷ 7 ∷ 7 ∷ []

result : TableOutcome
result = parse_line_table [] empty (section_of (unit ∷ other ∷ []) [])

parse_line_table-section_of_example :
    parse_line_table [] empty (section_of (other ∷ unit ∷ []) [])
    ≡ all_units [] empty (other ∷ unit ∷ [])
parse_line_table-section_of_example =
    parse_line_table-section_of [] empty (other ∷ unit ∷ []) (omega arith, (omega arith, tt))

units_loop-tail_example :
    units_loop 1000 [] empty (section_of (other ∷ []) (0 ∷ 0 ∷ [])) ≡ TableOutcome.unfinished
unfolding parse_unit read_u16
units_loop-tail_example =
    units_loop-tail 1000 [] empty empty (other ∷ []) 0 (0 ∷ []) (omega arith, tt) refl (omega arith)

-- Two files, in the directories 0 and 1.
abbrev names : List FileName
names =
    record { name = 99 ∷ []; dir_index = 0 } ∷ record { name = 104 ∷ 46 ∷ []; dir_index = 1 } ∷ []

two_files : Files (99 ∷ 0 ∷ 0 ∷ 104 ∷ 46 ∷ 0 ∷ 1 ∷ []) names
two_files =
    file (99 ∷ []) 0 ((omega arith, tt), omega arith) (last (omega arith)) (omega arith)
      (omega arith)
      (file (104 ∷ 46 ∷ []) 1 ((omega arith, (omega arith, tt)), omega arith) (last (omega arith))
        (omega arith) (omega arith) no_files)

parse_v5_file_names-Files_example :
    parse_v5_file_names [] (2 ∷ 1 ∷ 8 ∷ 2 ∷ 0x0f ∷ 2 ∷ 99 ∷ 0 ∷ 0 ∷ 104 ∷ 46 ∷ 0 ∷ 1 ∷ 7 ∷ [])
    ≡ value (names, 7 ∷ [])
parse_v5_file_names-Files_example =
    parse_v5_file_names-Files [] (2 ∷ []) (99 ∷ 0 ∷ 0 ∷ 104 ∷ 46 ∷ 0 ∷ 1 ∷ []) (7 ∷ []) names
      two_files (last (omega arith)) (omega arith) (omega arith)
