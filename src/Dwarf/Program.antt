-- ===== src/Dwarf/Program.antt =====
-- `parse_line_program` of src/lineno.c, with the rows it emits. Allocation does not fail. An `int64_t` is the word
-- that holds it, and a sum of lines wraps. The end of an extended instruction is the bytes behind its length.
use macos_c_debugger_arm.Dwarf.{read_u8, read_u16, read_u32, read_u64, read_uleb128, read_sleb128}
use macos_c_debugger_arm.Lineno.{LineEntry}
use macos_c_debugger_arm.Prelude.{
  ℕ, zero, suc, ◌+◌, ◌-◌, ◌*◌, ◌/◌, ◌%◌, ◌^◌, ◌||◌, Option, none, some, List, [], ◌∷◌, ◌++◌, ◌==◌,
  ltb, leb, if◌then◌else◌, get_or, get_elem?, length, take, u8, u32, u64,
}

-- The fields of `line_state_t` that are used: is_stmt and end_sequence are only set.
pub record LineState : Type 0 where
  pub address : ℕ
  pub line : ℕ
  pub file_index : ℕ
  pub column : ℕ

pub record FileName : Type 0 where
  pub name : List ℕ
  pub dir_index : ℕ

-- What the program's header gives: the arguments of parse_line_program.
pub record Header : Type 0 where
  pub dirs : List (List ℕ)
  pub files : List FileName
  pub opcode_base : ℕ
  pub line_base : ℕ
  pub line_range : ℕ
  pub min_inst_length : ℕ
  pub address_size : ℕ
  pub std_lengths : List ℕ

abbrev pub start_state : LineState
start_state = record { address = 0; line = 1; file_index = 1; column = 0 }

-- The path in CDBG_LINENO_MAX_FILE characters, one of them the 0 at the end.
unfoldable pub build_file_path : Header → ℕ → Option (List ℕ)
build_file_path h file_index =
    if file_index == 0 then none else elim (get_elem? h.files file_index) [
      | none ↦ none
      | some file ↦
          let dir = get_or h.dirs file.dir_index [] in
          some (take 511 (elim dir [ [] ↦ file.name | c ∷ cs ↦ (c ∷ cs) ++ (47 ∷ file.name) ]))
    ]

-- entries_push: a row with no file is dropped.
unfoldable pub entries_push : Header → List LineEntry → LineState → List LineEntry
unfolding build_file_path
entries_push h rows state = elim (build_file_path h state.file_index) [
  | none ↦ rows
  | some path ↦
      rows
      ++ (record {
        address = state.address;
        line = u32 state.line;
        column = u32 state.column;
        file = path;
      }
          ∷ [])
]

-- A line is at most 0 when it is 0 or has the sign.
unfoldable pub emit_row : Header → List LineEntry → LineState → List LineEntry
unfolding entries_push
emit_row h rows state =
    if state.line == 0 || leb (2 ^ 63) state.line then rows else entries_push h rows state

-- A `int8_t` as an `int64_t`.
unfoldable pub sign_extend_8 : ℕ → ℕ
sign_extend_8 b = if ltb b 128 then b else b + (2 ^ 64 - 256)

-- What one round of the loop leaves: the state, the rows and the cursor; or the parser returns -1; or the source
-- divides by 0, reads outside of `std_lengths` or adds a length to the cursor that leads out of all addresses.
pub data Round : Type 0 where
  went_on : LineState → List LineEntry → List ℕ → Round
  rejects : List LineEntry → Round
  undefined : Round

-- `unit->data = ext_end`
unfoldable pub drop : ℕ → List ℕ → List ℕ
drop zero bs = bs
drop (suc n) [] = []
drop (suc n) (b ∷ bs) = drop n bs

unfoldable pub set_address : Header → LineState → List ℕ → LineState
unfolding read_u32
set_address h state bs =
    if h.address_size == 8
    then record state { address = (read_u64 bs).0 }
    else if h.address_size == 4
    then record state { address = (read_u32 bs).0 }
    else state

-- Addresses of a process have 47 bits: a shorter length does not make the sum with a pointer wrap.
abbrev pub far : ℕ
far = 2 ^ 64 - 2 ^ 47

-- What follows an opcode of 0. The sum of the cursor and a length of `far` or more, which can wrap, is undefined.
unfoldable pub extended : Header → LineState → List LineEntry → List ℕ → Round
unfolding read_u8 drop emit_row set_address
extended h state rows bs =
    let (ext_len, body) = read_uleb128 bs in
    let (sub, operands) = read_u8 body in
    let ext_end = drop ext_len body in
    if ltb (length body) ext_len
    then (if leb far ext_len then Round.undefined else Round.rejects rows)
    else if sub == 1
    then Round.went_on start_state (emit_row h rows state) ext_end
    else if sub == 2
    then Round.went_on (set_address h state operands) rows ext_end
    else Round.went_on state rows ext_end

unfoldable pub advance_pc : LineState → ℕ → LineState
advance_pc state delta = record state { address = u64 (state.address + delta) }

-- The opcodes below `opcode_base`.
unfoldable pub standard : Header → LineState → List LineEntry → ℕ → List ℕ → Round
unfolding emit_row advance_pc drop read_u16
standard h state rows opcode bs =
    let (unsigned, after) = read_uleb128 bs in
    let (signed, behind) = read_sleb128 bs in
    let (fixed, past) = read_u16 bs in
    if opcode == 1
    then Round.went_on state (emit_row h rows state) bs
    else if opcode == 2
    then Round.went_on (advance_pc state (u64 (unsigned * h.min_inst_length))) rows after
    else if opcode == 3
    then Round.went_on (record state { line = u64 (state.line + signed) }) rows behind
    else if opcode == 4
    then Round.went_on (record state { file_index = unsigned }) rows after
    else if opcode == 5
    then Round.went_on (record state { column = unsigned }) rows after
    else if opcode == 8
    then (if h.line_range == 0
        then Round.undefined
        else Round.went_on
            (advance_pc state ((255 - h.opcode_base) / h.line_range * h.min_inst_length)) rows bs)
    else if opcode == 9
    then Round.went_on (advance_pc state fixed) rows past
    else if leb 16 opcode
    then Round.undefined
    else Round.went_on state rows (drop (get_or h.std_lengths opcode 0) bs)

unfoldable pub special : Header → LineState → List LineEntry → ℕ → List ℕ → Round
unfolding emit_row advance_pc sign_extend_8
special h state rows opcode bs =
    let adjusted = u8 (opcode - h.opcode_base) in
    let operation_advance = u8 (adjusted / h.line_range) in
    let line_increment = u8 (h.line_base + adjusted % h.line_range) in
    let moved =
      advance_pc (record state { line = u64 (state.line + sign_extend_8 line_increment) })
        (operation_advance * h.min_inst_length) in
    if h.line_range == 0 then Round.undefined else Round.went_on moved (emit_row h rows moved) bs

-- One round, at the opcode `opcode` with the cursor behind it.
unfoldable pub execute : Header → LineState → List LineEntry → ℕ → List ℕ → Round
unfolding extended standard special
execute h state rows opcode bs =
    if opcode == 0
    then extended h state rows bs
    else if ltb opcode h.opcode_base
    then standard h state rows opcode bs
    else special h state rows opcode bs

-- The end of parse_line_program, with the rows in the table: it returns 0, or -1, or is undefined, or `fuel` rounds
-- were too few.
pub data Outcome : Type 0 where
  done failed : List LineEntry → Outcome
  faulted out_of_rounds : Outcome

unfoldable pub program_loop : ℕ → Header → LineState → List LineEntry → List ℕ → Outcome
unfolding execute
program_loop fuel h state rows [] = Outcome.done rows
program_loop zero h state rows (opcode ∷ bs) = Outcome.out_of_rounds
program_loop (suc fuel) h state rows (opcode ∷ bs) = elim (execute h state rows opcode bs) [
  | went_on state' rows' bs' ↦ program_loop fuel h state' rows' bs'
  | rejects rows' ↦ Outcome.failed rows'
  | undefined ↦ Outcome.faulted
]

-- As many rounds as the unit has bytes.
unfoldable pub parse_line_program : Header → List LineEntry → List ℕ → Outcome
unfolding program_loop
parse_line_program h rows unit = program_loop (length unit) h start_state rows unit
