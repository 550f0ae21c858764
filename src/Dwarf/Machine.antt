-- ===== src/Dwarf/Machine.antt =====
-- The line number program that `parse_line_program` of src/lineno.c reads, as the bytes of its instructions: what it
-- makes of them are the rows of Matrix.
use macos_c_debugger_arm.Dwarf.{read_u8, uleb_loop}
use macos_c_debugger_arm.Dwarf.Leb.{Uleb, read_uleb128-Uleb}
use macos_c_debugger_arm.Dwarf.Leb.Signed.{signed, read_sleb128-Uleb}
use macos_c_debugger_arm.Dwarf.Leb.Fixed.{two_bytes, read_u64-bytes_of}
use macos_c_debugger_arm.Dwarf.Program.{
  LineState, Header, Round, Outcome, emit_row, sign_extend_8, drop, set_address, extended, standard,
  special, advance_pc, execute, program_loop, parse_line_program,
}
use macos_c_debugger_arm.Dwarf.Matrix.{
  Instruction, copy, const_add_pc, end_sequence, advance_pc_by, advance_line, set_file, set_column,
  fixed_advance, special_opcode, go_to, beginning, advance, after, added, matrix, table,
  table-append, emit_row-table,
}
use macos_c_debugger_arm.Lineno.{LineEntry}
use native.Mathlib.Nat.{div-le_self}
use macos_c_debugger_arm.Prelude.{
  ℕ, zero, suc, ◌+◌, ◌-◌, ◌*◌, ◌/◌, ◌^◌, ◌≤◌, ◌<◌, ◌≡◌, ◌≢◌, refl, ap, ◌∙◌, true, false, List, [],
  ◌∷◌, append_assoc, append-nil, ◌++◌, ◌==◌, ltb, length, length-append, arith, bytes_of, u8,
}

module _ (h : Header) where
  -- The opcode and the operands of an instruction.
  pub data Codes : Instruction → ℕ → List ℕ → Type 0 where
    copies : Codes copy 1 []
    advances_pc :
        {n : ℕ} {bs : List ℕ}
        → Uleb bs n
        → length bs ≤ 10
        → n < 2 ^ 64
        → Codes (advance_pc_by n) 2 bs
    advances_line :
        {n : ℕ} {bs : List ℕ}
        → Uleb bs n
        → length bs ≤ 9
        → Codes (advance_line (signed (7 * length bs) n)) 3 bs
    sets_file :
        {n : ℕ} {bs : List ℕ} → Uleb bs n → length bs ≤ 10 → n < 2 ^ 64 → Codes (set_file n) 4 bs
    sets_column :
        {n : ℕ} {bs : List ℕ} → Uleb bs n → length bs ≤ 10 → n < 2 ^ 64 → Codes (set_column n) 5 bs
    adds_const : Codes const_add_pc 8 []
    advances_fixed : {n : ℕ} → n < 2 ^ 16 → Codes (fixed_advance n) 9 (bytes_of 2 n)
    advances_both :
        {distance : ℕ}
        → h.opcode_base + distance < 256
        → Codes (special_opcode distance) (h.opcode_base + distance) []
    ends : Codes end_sequence 0 (1 ∷ 1 ∷ [])
    goes : {a : ℕ} → a < 2 ^ 64 → Codes (go_to a) 0 (9 ∷ 2 ∷ bytes_of 8 a)

  -- The bytes of a program.
  pub data Program : List Instruction → List ℕ → Type 0 where
    nothing : Program [] []
    then :
        {i : Instruction} {is : List Instruction} {opcode : ℕ} {operands bs : List ℕ}
        → Codes i opcode operands
        → Program is bs
        → Program (i ∷ is) (opcode ∷ operands ++ bs)

  -- What holds of the header of a line table for arm64.
  pub record IsUsual : Type 0 where
    pub from_ten : 10 ≤ h.opcode_base
    pub divides : h.line_range ≢ 0
    pub pointers : h.address_size ≡ 8

  went :
      {state : LineState} {bs : List ℕ} {rows rows' : List LineEntry}
      → rows ≡ rows'
      → Round.went_on state rows bs ≡ Round.went_on state rows' bs
  went {state} {bs} e = ap (λ r. Round.went_on state r bs) e

  below_base : (u : IsUsual) (i : ℕ) → i < 10 → ltb i h.opcode_base ≡ true
  below_base u i less = ground (arith, u.from_ten)

  range_divides : IsUsual → (h.line_range == 0) ≡ false
  range_divides u = ground (arith, u.divides)

  special-step :
      (u : IsUsual) (distance : ℕ) (bs : List ℕ) (state : LineState) (rows : List LineEntry)
      → h.opcode_base + distance < 256
      → execute h state rows (h.opcode_base + distance) bs
        ≡ Round.went_on (advance h state distance) (emit_row h rows (advance h state distance)) bs
  unfolding execute special advance_pc sign_extend_8
  special-step u distance bs state rows fits =
      let opcode = h.opcode_base + distance in
      let adjusted : u8 (opcode - h.opcode_base) ≡ distance = omega arith in
      let less = div-le_self distance h.line_range in
      let whole : u8 (distance / h.line_range) ≡ distance / h.line_range = omega arith in
      let nonzero : (opcode == 0) ≡ false = ground (arith, u.from_ten) in
      let above : ltb opcode h.opcode_base ≡ false = ground arith in
      rw (nonzero, above, range_divides u, adjusted, whole) refl

  extended-end :
      (state : LineState) (rows : List LineEntry) (bs : List ℕ)
      → extended h state rows (1 ∷ 1 ∷ bs) ≡ Round.went_on beginning (emit_row h rows state) bs
  unfolding extended uleb_loop read_u8 drop
  extended-end state rows bs =
      let long : ltb (suc (length bs)) 1 ≡ false = ground arith in rw long refl

  extended-go :
      (u : IsUsual) (a : ℕ) (state : LineState) (rows : List LineEntry) (bs : List ℕ)
      → a < 2 ^ 64
      → extended h state rows (9 ∷ 2 ∷ bytes_of 8 a ++ bs)
        ≡ Round.went_on (record state { address = a }) rows bs
  unfolding extended uleb_loop read_u8 drop set_address
  extended-go u a state rows bs fits =
      let long : ltb (length (2 ∷ bytes_of 8 a ++ bs)) 9 ≡ false = ground arith in
      let wide : (h.address_size == 8) ≡ true = ground (arith, u.pointers) in
      rw (long, wide, read_u64-bytes_of a bs fits) refl

  execute-step :
      (u : IsUsual) (i : Instruction) (opcode : ℕ) (operands bs : List ℕ) (state : LineState)
      (rows : List LineEntry)
      → Codes i opcode operands
      → execute h state rows opcode (operands ++ bs)
        ≡ Round.went_on (after h i state) (rows ++ table h (added h i state)) bs
  unfolding execute standard special extended advance_pc
  execute-step u i opcode operands bs state rows copies =
      rw (below_base u 1 (omega arith)) (went (emit_row-table h rows state))
  execute-step u i opcode operands bs state rows (advances_pc {n} l short fits) =
      rw
        (
          below_base u 2 (omega arith),
          read_uleb128-Uleb n operands bs l short fits,
          append-nil rows,
        )
        refl
  execute-step u i opcode operands bs state rows (advances_line {n} l short) =
      rw (below_base u 3 (omega arith), read_sleb128-Uleb n operands bs l short, append-nil rows)
        refl
  execute-step u i opcode operands bs state rows (sets_file {n} l short fits) =
      rw
        (
          below_base u 4 (omega arith),
          read_uleb128-Uleb n operands bs l short fits,
          append-nil rows,
        )
        refl
  execute-step u i opcode operands bs state rows (sets_column {n} l short fits) =
      rw
        (
          below_base u 5 (omega arith),
          read_uleb128-Uleb n operands bs l short fits,
          append-nil rows,
        )
        refl
  execute-step u i opcode operands bs state rows adds_const =
      rw (below_base u 8 (omega arith), range_divides u, append-nil rows) refl
  execute-step u i opcode operands bs state rows (advances_fixed {n} fits) =
      rw (below_base u 9 (omega arith), two_bytes n fits, append-nil rows) refl
  execute-step u i opcode operands bs state rows (advances_both {distance} fits) =
      special-step u distance bs state rows fits
      ∙ went (emit_row-table h rows (advance h state distance))
  execute-step u i opcode operands bs state rows ends =
      extended-end state rows bs ∙ went (emit_row-table h rows state)
  execute-step u i opcode operands bs state rows (goes {a} fits) =
      rw (append-nil rows) (extended-go u a state rows bs fits)

  program_loop-Program :
      (u : IsUsual) (n : ℕ) (is : List Instruction) (bs : List ℕ) (state : LineState)
      (rows : List LineEntry)
      → Program is bs
      → length bs ≤ n
      → program_loop n h state rows bs ≡ Outcome.done (rows ++ table h (matrix h is state))
  unfolding program_loop
  program_loop-Program u n is bs state rows nothing le = rw (append-nil rows) refl
  program_loop-Program u zero is bs state rows (then c p) le = absurd (omega (arith, le))
  program_loop-Program u (suc n) is bs state rows
        (then {i} {is = js} {opcode} {operands} {bs = cs} c p) le =
      let now = added h i state in
      let next = matrix h js (after h i state) in
      let joined : (rows ++ table h now) ++ table h next ≡ rows ++ table h (now ++ next) =
        rw (table-append h now next) (append_assoc rows (table h now) (table h next)) in
      rw (program_loop, execute-step u i opcode operands cs state rows c)
        (program_loop-Program u n js cs (after h i state) (rows ++ table h now) p
            (omega (arith, le, length-append operands cs))
          ∙ ap Outcome.done joined)

  -- For a header with an opcode_base of 10 or more, a line_range that is not 0 and an address size of 8,
  -- bytes that encode a sequence of the ten instructions of Matrix are parsed without a fault, and what
  -- they add to the table is the rows that the instructions stand for, in their order: address, line and
  -- column, and the path of the file. A row is left out where its file is not one of the header at an
  -- index of 1 or more or its line is not above 0; a line is a number of 64 bits, of which the entry has
  -- 32, and a special opcode moves it by a signed byte.
  pub parse_line_program-Program :
      (u : IsUsual) (is : List Instruction) (bs : List ℕ) (rows : List LineEntry)
      → Program is bs
      → parse_line_program h rows bs ≡ Outcome.done (rows ++ table h (matrix h is beginning))
  unfolding parse_line_program
  parse_line_program-Program u is bs rows p =
      program_loop-Program u (length bs) is bs beginning rows p (omega arith)
