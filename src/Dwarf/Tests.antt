-- ===== src/Dwarf/Tests.antt =====
-- The reader of a line number program at concrete inputs.
use macos_c_debugger_arm.Dwarf.{read_u8, u64_loop, uleb_loop, read_uleb128, read_sleb128}
use macos_c_debugger_arm.Dwarf.Ends.{NoWrap, Returns, parse_line_program_ends}
use macos_c_debugger_arm.Dwarf.Leb.{Uleb, last, more, read_uleb128-Uleb}
use macos_c_debugger_arm.Dwarf.Leb.Signed.{signed, read_sleb128-Uleb}
use macos_c_debugger_arm.Dwarf.Machine.{Codes, Program, IsUsual, parse_line_program-Program}
use macos_c_debugger_arm.Dwarf.Matrix.{
  Instruction, copy, special_opcode, end_sequence, go_to, beginning, matrix, table,
}
use macos_c_debugger_arm.Dwarf.Program.{
  Header, Outcome, start_state, build_file_path, entries_push, emit_row, sign_extend_8, drop,
  set_address, extended, standard, special, advance_pc, execute, program_loop, parse_line_program,
}
use macos_c_debugger_arm.Lineno.{LineEntry}
use macos_c_debugger_arm.Prelude.{ℕ, ◌+◌, ◌^◌, ◌≡◌, refl, List, [], ◌∷◌, ◌++◌, arith}

-- Of the header of a table with one file, "c" in "s".
abbrev header : Header
header = record {
  dirs = (115 ∷ []) ∷ [];
  files = record { name = []; dir_index = 0 } ∷ record { name = 99 ∷ []; dir_index = 0 } ∷ [];
  opcode_base = 13;
  line_base = 251;
  line_range = 14;
  min_inst_length = 4;
  address_size = 8;
  std_lengths = 0 ∷ 0 ∷ 1 ∷ 1 ∷ 1 ∷ 1 ∷ 0 ∷ 0 ∷ 0 ∷ 1 ∷ 0 ∷ 0 ∷ 1 ∷ 0 ∷ 0 ∷ 0 ∷ [];
}

-- 624485 and -123456 as the DWARF standard encodes them.
abbrev large : List ℕ
large = 0xe5 ∷ 0x8e ∷ 0x26 ∷ []

abbrev negative : List ℕ
negative = 0xc0 ∷ 0xbb ∷ 0x78 ∷ []

large-Uleb : Uleb large 624485
large-Uleb =
    more {b = 0x65} (omega arith) (more {b = 0x0e} (omega arith) (last {b = 0x26} (omega arith)))

negative-Uleb : Uleb negative 1973696
negative-Uleb =
    more {b = 0x40} (omega arith) (more {b = 0x3b} (omega arith) (last {b = 0x78} (omega arith)))

read_uleb128-Uleb_example : read_uleb128 (large ++ (7 ∷ [])) ≡ (624485, 7 ∷ [])
read_uleb128-Uleb_example =
    read_uleb128-Uleb 624485 large (7 ∷ []) large-Uleb (omega arith) (omega arith)

read_sleb128-Uleb_example : read_sleb128 (negative ++ (7 ∷ [])) ≡ (signed 21 1973696, 7 ∷ [])
read_sleb128-Uleb_example = read_sleb128-Uleb 1973696 negative (7 ∷ []) negative-Uleb (omega arith)

minus_123456 : signed 21 1973696 + 123456 ≡ 2 ^ 64
minus_123456 = refl

-- To 0x1000, a row, then an opcode that goes on by two lines and one instruction, and the end.
abbrev instructions : List Instruction
instructions = go_to 0x1000 ∷ copy ∷ special_opcode 21 ∷ end_sequence ∷ []

abbrev bytes : List ℕ
bytes = 0 ∷ 9 ∷ 2 ∷ 0 ∷ 0x10 ∷ 0 ∷ 0 ∷ 0 ∷ 0 ∷ 0 ∷ 0 ∷ 1 ∷ 34 ∷ 0 ∷ 1 ∷ 1 ∷ []

bytes-Program : Program header instructions bytes
bytes-Program = Program.then (Codes.goes {a = 0x1000} (omega arith)) (
    Program.then Codes.copies (
      Program.then (Codes.advances_both {distance = 21} (omega arith))
        (Program.then Codes.ends Program.nothing)))

bytes-NoWrap : NoWrap bytes
unfolding uleb_loop u64_loop read_u8
bytes-NoWrap = (
  refl,
  (
    refl,
    (
      refl,
      (
        refl,
        (
          refl,
          (
            refl,
            (refl, (refl, (refl, (refl, (refl, (refl, (refl, (refl, (refl, (refl, tt)))))))))),
          ),
        ),
      ),
    ),
  ),
)

header-IsUsual : IsUsual header
header-IsUsual = record { from_ten = omega arith; divides = omega arith; pointers = refl }

parse_line_program-Program_example :
    parse_line_program header [] bytes
    ≡ Outcome.done (table header (matrix header instructions beginning))
parse_line_program-Program_example =
    parse_line_program-Program header header-IsUsual instructions bytes [] bytes-Program

parse_line_program_ends_example :
    (program_loop 99 header start_state [] bytes ≡ parse_line_program header [] bytes)
    × Returns (parse_line_program header [] bytes)
parse_line_program_ends_example =
    parse_line_program_ends header [] bytes 99
      (record { divides = omega arith; to_sixteen = omega arith }) bytes-NoWrap (omega arith)

abbrev row_at : ℕ → ℕ → LineEntry
row_at address line = record {
  address = address;
  line = line;
  column = 0;
  file = 115 ∷ 47 ∷ 99 ∷ [];
}

-- The rows: one for each of `copy`, the special opcode and the end of the sequence.
bytes_rows :
    parse_line_program header [] bytes
    ≡ Outcome.done (row_at 0x1000 1 ∷ row_at 0x1004 3 ∷ row_at 0x1004 3 ∷ [])
unfolding parse_line_program program_loop execute extended standard special advance_pc set_address
    drop sign_extend_8 emit_row entries_push build_file_path uleb_loop u64_loop read_u8
bytes_rows = refl
