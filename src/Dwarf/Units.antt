-- ===== src/Dwarf/Units.antt =====
-- `parse_line_table` of src/lineno.c: the units of the section `.debug_line`. Allocation does not fail, and the
-- addition of a length to a pointer is taken not to wrap.
pub mod Ends
mod Tests
use macos_c_debugger_arm.Dwarf.{read_u8, read_u16, read_u32}
use macos_c_debugger_arm.Dwarf.Program.{
  Header, FileName, drop, Outcome, done, failed, faulted, out_of_rounds, parse_line_program,
}
use macos_c_debugger_arm.Dwarf.Tables.{
  parse_v5_directories, parse_v5_file_names, directories_v4, parse_file_names_v4,
}
use macos_c_debugger_arm.Lineno.{LineEntry}
use macos_c_debugger_arm.Prelude.{
  ℕ, zero, suc, ◌+◌, ◌-◌, min, ◌^◌, Bool, true, false, not, ◌&&◌, List, [], ◌∷◌, ◌++◌, ◌==◌, ltb,
  leb, if◌then◌else◌, length, take, replicate, ◌||◌, Evaluated, value, fails, undefined, ◌>>=◌,
}

-- The fields of `cdbg_lineno_t` that are filled.
pub record LineTable : Type 0 where
  pub entries : List LineEntry
  pub comp_dir : List ℕ

-- The loop returns 0 or -1, with the table; or the source reads outside of the section or divides by 0; or the
-- rounds were too few.
pub data TableOutcome : Type 0 where
  loaded rejected : LineTable → TableOutcome
  broken unfinished : TableOutcome

-- The fixed fields of the prologue, in the order of their bytes: `line_base` is the byte of an `int8_t`.
pub record Prologue : Type 0 where
  pub min_inst_length : ℕ
  pub line_base : ℕ
  pub line_range : ℕ
  pub opcode_base : ℕ
  pub std_lengths : List ℕ

-- `std_lengths` from index `i` on, `n` of its entries.
unfoldable pub read_lengths : ℕ → List ℕ → List ℕ × List ℕ
unfolding read_u8
read_lengths zero bs = ([], bs)
read_lengths (suc n) bs =
    let (b, bs1) = read_u8 bs in let (rest, behind) = read_lengths n bs1 in (b ∷ rest, behind)

-- Entry 0 is 0, as are those that are not read.
unfoldable pub read_std_lengths : ℕ → List ℕ → List ℕ × List ℕ
unfolding read_lengths
read_std_lengths opcode_base bs =
    let count = min opcode_base 16 - 1 in
    let (lengths, rest) = read_lengths count bs in (0 ∷ lengths ++ replicate (15 - count) 0, rest)

unfoldable pub read_prologue : Bool → List ℕ → Prologue × List ℕ
unfolding read_u8 read_std_lengths
read_prologue v5 bs =
    let (min_inst_length, bs1) = read_u8 bs in
    let bs2 = if v5 then (read_u8 bs1).1 else bs1 in
    let (default_is_stmt, bs3) = read_u8 bs2 in
    let (line_base, bs4) = read_u8 bs3 in
    let (line_range, bs5) = read_u8 bs4 in
    let (opcode_base, bs6) = read_u8 bs5 in
    let (std_lengths, rest) = read_std_lengths opcode_base bs6 in
    (
      record {
        min_inst_length = min_inst_length;
        line_base = line_base;
        line_range = line_range;
        opcode_base = opcode_base;
        std_lengths = std_lengths;
      },
      rest,
    )

abbrev pub no_file : FileName
no_file = record { name = []; dir_index = 0 }

-- The tables of directories and files, with what is left of the prologue.
unfoldable pub read_tables :
    Bool → List ℕ → List ℕ → Evaluated (List (List ℕ) × List FileName × List ℕ)
unfolding parse_v5_directories parse_v5_file_names directories_v4 parse_file_names_v4
read_tables v5 line_str bs =
    if v5
    then (parse_v5_directories line_str bs >>= λ (dirs, bs1).
        (parse_v5_file_names line_str bs1 >>= λ (files, rest). value (dirs, no_file ∷ files, rest)))
    else (directories_v4 (length bs) bs >>= λ (dirs, bs1).
        (parse_file_names_v4 (length bs1) bs1 >>= λ (files, rest).
        value ([] ∷ dirs, no_file ∷ files, rest)))

-- The first directory that has a name.
unfoldable pub first_named : List (List ℕ) → List ℕ
first_named [] = []
first_named ([] ∷ dirs) = first_named dirs
first_named ((c ∷ cs) ∷ dirs) = c ∷ cs

unfoldable pub first_directory : List (List ℕ) → List ℕ
first_directory [] = []
first_directory (dir ∷ dirs) = dir

-- The directory of the compilation is set once.
unfoldable pub set_comp_dir : Bool → List (List ℕ) → List ℕ → List ℕ
unfolding first_named first_directory
set_comp_dir v5 dirs [] = take 511 (if v5 then first_directory dirs else first_named dirs)
set_comp_dir v5 dirs (c ∷ cs) = c ∷ cs

-- The address size, and what is behind it.
unfoldable pub read_sizes : Bool → List ℕ → ℕ × List ℕ
unfolding read_u8
read_sizes v5 bs =
    let (address_size, bs1) = read_u8 bs in if v5 then (address_size, (read_u8 bs1).1) else (8, bs)

-- The end of the parse of a program, as the end of that of its unit.
abbrev pub unit_end : List ℕ → Outcome → TableOutcome
unit_end comp_dir (done entries) =
    TableOutcome.loaded (record { entries = entries; comp_dir = comp_dir })
unit_end comp_dir (failed entries) =
    TableOutcome.rejected (record { entries = entries; comp_dir = comp_dir })
unit_end comp_dir faulted = TableOutcome.broken
unit_end comp_dir out_of_rounds = TableOutcome.unfinished

-- What begins one byte before `end`, a part of the unit that is not its beginning.
unfoldable pub one_back : List ℕ → List ℕ → List ℕ
unfolding drop
one_back unit end = drop (length unit - (length end + 1)) unit

-- The unit behind its version: `bs` is the cursor, `unit` the unit from its beginning.
unfoldable pub parse_versioned : List ℕ → Bool → LineTable → List ℕ → List ℕ → TableOutcome
unfolding read_sizes read_u32 read_prologue read_tables set_comp_dir one_back parse_line_program
    drop
parse_versioned line_str v5 table unit bs =
    let (address_size, bs1) = read_sizes v5 bs in
    let (prologue_length, bs2) = read_u32 bs1 in
    let (fields, bs3) = read_prologue v5 (take prologue_length bs2) in
    let prologue_end = drop prologue_length bs2 in
    if ltb (length bs2) prologue_length
    then TableOutcome.rejected table
    else elim (read_tables v5 line_str bs3) [
      | fails ↦ TableOutcome.rejected table
      | undefined ↦ TableOutcome.broken
      | value (dirs, files, rest) ↦
          let header : Header = record {
            dirs = dirs;
            files = files;
            opcode_base = fields.opcode_base;
            line_base = fields.line_base;
            line_range = fields.line_range;
            min_inst_length = fields.min_inst_length;
            address_size = address_size;
            std_lengths = fields.std_lengths;
          } in
          let program = if v5 then one_back unit prologue_end else rest ++ prologue_end in
          unit_end (set_comp_dir v5 dirs table.comp_dir)
            (parse_line_program header table.entries program)
    ]

-- A unit of another version is passed over.
unfoldable pub parse_unit : List ℕ → LineTable → List ℕ → TableOutcome
unfolding read_u16 parse_versioned
parse_unit line_str table unit =
    let (version, bs) = read_u16 unit in
    if version == 5
    then parse_versioned line_str true table unit bs
    else if version == 4
    then parse_versioned line_str false table unit bs
    else TableOutcome.loaded table

-- What goes on where a unit has been loaded.
abbrev pub and_then : TableOutcome → (LineTable → TableOutcome) → TableOutcome
and_then (loaded table) f = f table
and_then (rejected table) f = TableOutcome.rejected table
and_then broken f = TableOutcome.broken
and_then unfinished f = TableOutcome.unfinished

unfoldable pub units_loop : ℕ → List ℕ → LineTable → List ℕ → TableOutcome
unfolding read_u32 drop
units_loop fuel line_str table [] = TableOutcome.loaded table
units_loop zero line_str table (b ∷ bs) = TableOutcome.unfinished
units_loop (suc fuel) line_str table (b ∷ bs) =
    let (unit_length, rest) = read_u32 (b ∷ bs) in
    if unit_length == 0xffffffff || ltb (length rest) unit_length
    then TableOutcome.rejected table
    else and_then (parse_unit line_str table (take unit_length rest))
        (λ table'. units_loop fuel line_str table' (drop unit_length rest))

-- Each unit takes four bytes at least: the length of the section is enough where the loop ends.
unfoldable pub parse_line_table : List ℕ → LineTable → List ℕ → TableOutcome
unfolding units_loop
parse_line_table line_str table section = units_loop (length section) line_str table section
