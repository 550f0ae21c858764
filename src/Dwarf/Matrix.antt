-- ===== src/Dwarf/Matrix.antt =====
-- The rows that the instructions of a line number program stand for, over the header that src/lineno.c reads.
use macos_c_debugger_arm.Dwarf.Program.{
  LineState, Header, FileName, emit_row, entries_push, build_file_path,
}
use macos_c_debugger_arm.Lineno.{LineEntry}
use mathlib.Core.Option
use macos_c_debugger_arm.Prelude.{
  ℕ, ◌+◌, ◌-◌, ◌*◌, ◌/◌, ◌%◌, ◌^◌, ◌≡◌, refl, sym, true, false, List, [], ◌∷◌, Option, none, some,
  take, get_or, get_elem?, u32, ◌&&◌, if◌then◌else◌, append_assoc, append-nil, inl, inr, Bool-cases,
  ◌++◌, ◌==◌, ltb, arith, u8, u64,
}

pub data Instruction : Type 0 where
  copy const_add_pc end_sequence : Instruction
  advance_pc_by advance_line set_file set_column fixed_advance special_opcode go_to :
      ℕ → Instruction

-- The registers of the machine where a sequence begins.
abbrev pub beginning : LineState
beginning = record { address = 0; line = 1; file_index = 1; column = 0 }

-- The file with the index: the first has the index 1.
abbrev pub file_at : List FileName → ℕ → Option FileName
file_at files i = if ltb 0 i then get_elem? files i else none

-- The name behind its directory.
abbrev pub path_of : List ℕ → List ℕ → List ℕ
path_of dir name = elim dir [ [] ↦ name | c ∷ cs ↦ (c ∷ cs) ++ (47 ∷ name) ]

-- A byte that stands for a number from -128 to 127, in 64 bits.
abbrev pub signed_byte : ℕ → ℕ
signed_byte b = if ltb b 128 then b else b + (2 ^ 64 - 256)

module _ (h : Header) where
  -- A special opcode, by its distance from `opcode_base`: the line and the address advance, then comes a row.
  abbrev pub advance : LineState → ℕ → LineState
  advance state distance = record state {
    address = u64 (state.address + distance / h.line_range * h.min_inst_length);
    line = u64 (state.line + signed_byte (u8 (h.line_base + distance % h.line_range)));
  }

  -- The registers after one instruction.
  abbrev pub after : Instruction → LineState → LineState
  after copy state = state
  after const_add_pc state = record state {
    address = u64 (state.address + (255 - h.opcode_base) / h.line_range * h.min_inst_length);
  }
  after end_sequence state = beginning
  after (advance_pc_by n) state = record state {
    address = u64 (state.address + u64 (n * h.min_inst_length));
  }
  after (advance_line n) state = record state { line = u64 (state.line + n) }
  after (set_file n) state = record state { file_index = n }
  after (set_column n) state = record state { column = n }
  after (fixed_advance n) state = record state { address = u64 (state.address + n) }
  after (special_opcode distance) state = advance state distance
  after (go_to a) state = record state { address = a }

  -- The registers of the row that the instruction adds.
  abbrev pub added : Instruction → LineState → List LineState
  added copy state = state ∷ []
  added end_sequence state = state ∷ []
  added (special_opcode distance) state = advance state distance ∷ []
  added i state = []

  -- All rows that the instructions add.
  abbrev pub matrix : List Instruction → LineState → List LineState
  matrix [] state = []
  matrix (i ∷ is) state = added i state ++ matrix is (after i state)

  -- The path of the file with the index, at most 511 characters of it.
  abbrev pub path_at : ℕ → Option (List ℕ)
  path_at i =
      Option.map
        (λ (file : FileName). take 511 (path_of (get_or h.dirs file.dir_index []) file.name))
        (file_at h.files i)

  -- The entry of a row, if its line is above 0, in 64 bits with a sign, and its file is one of the header.
  abbrev pub entry_at : LineState → Option (List ℕ) → List LineEntry
  entry_at state none = []
  entry_at state (some path) =
      if ltb 0 state.line && ltb state.line (2 ^ 63)
      then record {
        address = state.address;
        line = u32 state.line;
        column = u32 state.column;
        file = path;
      }
        ∷ []
      else []

  abbrev pub table : List LineState → List LineEntry
  table [] = []
  table (state ∷ states) = entry_at state (path_at state.file_index) ++ table states

  pub table-append : (xs ys : List LineState) → table (xs ++ ys) ≡ table xs ++ table ys
  table-append [] ys = refl
  table-append (x ∷ xs) ys =
      rw (table-append xs ys)
        (sym (append_assoc (entry_at x (path_at x.file_index)) (table xs) (table ys)))

  mapped :
      (file : Option FileName)
      → (elim file [
        | none ↦ none
        | some f ↦ some (take 511 (path_of (get_or h.dirs f.dir_index []) f.name))
      ])
        ≡ Option.map
            (λ (f : FileName). take 511 (path_of (get_or h.dirs f.dir_index []) f.name))
            file
  mapped none = refl
  mapped (some f) = refl

  build_file_path-path_at : (i : ℕ) → build_file_path h i ≡ path_at i
  unfolding build_file_path
  build_file_path-path_at i = elim (Bool-cases (i == 0)) [
    | inl e ↦ let below : ltb 0 i ≡ false = ground (arith, e) in rw (e, below) refl
    | inr e ↦
        let above : ltb 0 i ≡ true = ground (arith, e) in
        rw (e, above) (mapped (get_elem? h.files i))
  ]

  pushed :
      (rows : List LineEntry) (state : LineState) (path : Option (List ℕ))
      → build_file_path h state.file_index ≡ path
      → emit_row h rows state ≡ rows ++ (entry_at state path ++ [])
  unfolding emit_row entries_push
  pushed rows state none e = ground (arith, append-nil rows)
  pushed rows state (some path) e = ground (arith, append-nil rows)

  pub emit_row-table :
      (rows : List LineEntry) (state : LineState)
      → emit_row h rows state ≡ rows ++ table (state ∷ [])
  emit_row-table rows state =
      pushed rows state (path_at state.file_index) (build_file_path-path_at state.file_index)
