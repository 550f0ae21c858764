-- ===== src/Dwarf/Ends.antt =====
-- The loop of `parse_line_program` in src/lineno.c comes to its end: every round takes a byte off the unit. Where a
-- length could make the sum with the cursor wrap, the source could go back: NoWrap says that none does.
use macos_c_debugger_arm.Dwarf.{read_u8, uleb_loop, read_uleb128}
use macos_c_debugger_arm.Dwarf.Leaves.{
  uleb_loop-Leaves, sleb_loop-Leaves, read_u16-Leaves, drop-Leaves,
}
use macos_c_debugger_arm.Dwarf.Program.{
  LineState, Header, Round, went_on, rejects, undefined, far, extended, standard, special, execute,
  Outcome, done, failed, faulted, out_of_rounds, program_loop, parse_line_program, start_state,
}
use macos_c_debugger_arm.Lineno.{LineEntry}
use macos_c_debugger_arm.Prelude.{
  ℕ, zero, suc, ◌≤◌, ◌≡◌, ◌≢◌, refl, List, [], ◌∷◌, ◌==◌, ltb, leb, length, arith, by_if, ◌<◌, true,
  false, inl, inr, Bool-cases, ltb→lt, get_or,
}

-- Wherever a number is read from, it is not a length that leads out of all addresses.
abbrev pub NoWrap : List ℕ → Type 0
NoWrap [] = Unit
NoWrap (b ∷ bs) = (ltb (read_uleb128 (b ∷ bs)).0 far ≡ true) × NoWrap bs

-- What holds of a part of the unit: it has at most `n` bytes, and no length in it makes the cursor wrap.
abbrev Fits : ℕ → List ℕ → Type 0
Fits n bs = (length bs ≤ n) × NoWrap bs

Fits-tail : (n b : ℕ) (bs : List ℕ) → Fits n (b ∷ bs) → Fits n bs
Fits-tail n b bs (le, safe) = (omega (arith, le), safe.1)

-- What a round leaves fits, and it does nothing undefined.
abbrev GoesOn : ℕ → Round → Type 0
GoesOn n (went_on state rows bs) = Fits n bs
GoesOn n (rejects rows) = Unit
GoesOn n undefined = ⊥

-- A header that the source can go by: no division by 0, and no opcode outside of `std_lengths`.
pub record IsSafe (h : Header) : Type 0 where
  pub divides : h.line_range ≢ 0
  pub to_sixteen : h.opcode_base ≤ 16

length_of-far : (bs : List ℕ) → NoWrap bs → leb far (read_uleb128 bs).0 ≡ false
unfolding uleb_loop
length_of-far [] safe = refl
length_of-far (b ∷ bs) safe = ground (arith, safe.0)

module _ (n : ℕ) (h : Header) (s : IsSafe h) where
  shrinks : (b : ℕ) (bs : List ℕ) → Fits n (b ∷ bs) → Fits n bs
  shrinks = Fits-tail n

  extended-GoesOn :
      (state : LineState) (rows : List LineEntry) (bs : List ℕ)
      → Fits n bs
      → GoesOn n (extended h state rows bs)
  unfolding extended
  extended-GoesOn state rows bs fits =
      let len = read_uleb128 bs in
      let body = uleb_loop-Leaves (Fits n) shrinks 10 0 0 bs fits in
      let end = drop-Leaves (Fits n) shrinks len.0 len.1 body in
      let near = length_of-far bs fits.1 in
      by_if (GoesOn n) (ltb (length len.1) len.0) (rw near tt) (
        by_if (GoesOn n) ((read_u8 len.1).0 == 1) end
          (by_if (GoesOn n) ((read_u8 len.1).0 == 2) end end))

  standard-GoesOn :
      (state : LineState) (rows : List LineEntry) (opcode : ℕ) (bs : List ℕ)
      → opcode < h.opcode_base
      → Fits n bs
      → GoesOn n (standard h state rows opcode bs)
  unfolding standard
  standard-GoesOn state rows opcode bs below fits =
      let after = uleb_loop-Leaves (Fits n) shrinks 10 0 0 bs fits in
      let nonzero : (h.line_range == 0) ≡ false = ground (arith, s.divides) in
      let inside : leb 16 opcode ≡ false = ground (arith, s.to_sixteen, below) in
      by_if (GoesOn n) (opcode == 1) fits (
        by_if (GoesOn n) (opcode == 2) after (
          by_if (GoesOn n) (opcode == 3) (sleb_loop-Leaves (Fits n) shrinks 10 0 0 0 bs fits) (
            by_if (GoesOn n) (opcode == 4) after (
              by_if (GoesOn n) (opcode == 5) after (
                by_if (GoesOn n) (opcode == 8) (rw nonzero fits) (
                  by_if (GoesOn n) (opcode == 9) (read_u16-Leaves (Fits n) shrinks bs fits) (
                    rw inside
                      (drop-Leaves (Fits n) shrinks (get_or h.std_lengths opcode 0) bs fits))))))))

  execute-GoesOn :
      (state : LineState) (rows : List LineEntry) (opcode : ℕ) (bs : List ℕ)
      → Fits n bs
      → GoesOn n (execute h state rows opcode bs)
  unfolding execute special
  execute-GoesOn state rows opcode bs fits =
      let nonzero : (h.line_range == 0) ≡ false = ground (arith, s.divides) in
      by_if (GoesOn n) (opcode == 0) (extended-GoesOn state rows bs fits)
        (elim (Bool-cases (ltb opcode h.opcode_base)) [
          | inl e ↦ rw e (standard-GoesOn state rows opcode bs (ltb→lt opcode h.opcode_base e) fits)
          | inr e ↦ rw (e, nonzero) fits
        ])

-- The parser has returned 0 or -1.
abbrev pub Returns : Outcome → Type 0
Returns (done rows) = Unit
Returns (failed rows) = Unit
Returns faulted = ⊥
Returns out_of_rounds = ⊥

-- The end after a round, with what is left of the rounds.
abbrev follow : ℕ → Header → Round → Outcome
follow fuel h (went_on state rows bs) = program_loop fuel h state rows bs
follow fuel h (rejects rows) = Outcome.failed rows
follow fuel h undefined = Outcome.faulted

follow_enough :
    (n m : ℕ) (h : Header) (r : Round)
    → GoesOn n r
    → ((state : LineState) (rows : List LineEntry) (bs : List ℕ)
        → Fits n bs
        → (program_loop m h state rows bs ≡ program_loop n h state rows bs)
          × Returns (program_loop n h state rows bs))
    → (follow m h r ≡ follow n h r) × Returns (follow n h r)
follow_enough n m h (went_on state rows bs) left loop = loop state rows bs left
follow_enough n m h (rejects rows) left loop = (refl, tt)
follow_enough n m h undefined left loop = absurd left

-- Rounds for all the bytes are enough, and more change nothing.
program_loop_enough :
    (n m : ℕ) (h : Header) (state : LineState) (rows : List LineEntry) (bs : List ℕ)
    → IsSafe h
    → Fits n bs
    → n ≤ m
    → (program_loop m h state rows bs ≡ program_loop n h state rows bs)
      × Returns (program_loop n h state rows bs)
unfolding program_loop
program_loop_enough n m h state rows [] s fits more = (refl, tt)
program_loop_enough zero m h state rows (b ∷ bs) s fits more = absurd (omega (arith, fits.0))
program_loop_enough (suc n) zero h state rows (b ∷ bs) s fits more = absurd (omega arith)
program_loop_enough (suc n) (suc m) h state rows (b ∷ bs) s fits more =
    follow_enough n m h (execute h state rows b bs)
      (execute-GoesOn n h s state rows b bs (omega (arith, fits.0), fits.1.1))
      (λ state' rows' bs' left. program_loop_enough n m h state' rows' bs' s left (omega arith))

-- For a header with a line_range that is not 0 and an opcode_base of at most 16, and a unit in which no
-- LEB128 number, wherever in the unit it begins, is 2^64 - 2^47 or more, parsing the line number program
-- returns 0 or -1, without a fault and without running out of rounds, and with any number of rounds that
-- is not below the length of the unit the result is the same.
pub parse_line_program_ends :
    (h : Header) (rows : List LineEntry) (unit : List ℕ) (fuel : ℕ)
    → IsSafe h
    → NoWrap unit
    → length unit ≤ fuel
    → (program_loop fuel h start_state rows unit ≡ parse_line_program h rows unit)
      × Returns (parse_line_program h rows unit)
unfolding parse_line_program
parse_line_program_ends h rows unit fuel s safe le =
    program_loop_enough (length unit) fuel h start_state rows unit s (omega arith, safe) le
