-- ===== src/Dwarf/Units/Ends.antt =====
-- Where the loop of `parse_line_table` in src/lineno.c ends, and where it does not.
use macos_c_debugger_arm.Dwarf.{read_u16, read_u32}
use macos_c_debugger_arm.Dwarf.Program.{drop}
use macos_c_debugger_arm.Dwarf.Units.{
  and_then, LineTable, TableOutcome, loaded, rejected, broken, unfinished, parse_unit, units_loop,
  parse_line_table,
}
use macos_c_debugger_arm.Prelude.{
  ℕ, zero, suc, ◌+◌, ◌*◌, ◌/◌, ◌%◌, All, ◌^◌, ◌≤◌, ◌<◌, ◌≡◌, refl, ap, ◌∙◌, false, List, [], ◌∷◌,
  ◌++◌, length, length-append, take, arith, bytes_of, ltb, ◌==◌, ◌||◌, if◌then◌else◌,
}
use macos_c_debugger_arm.Prelude.Bits.{bit_or_fields_above}

units_loop_hangs :
    (fuel : ℕ) (line_str : List ℕ) (table : LineTable) (b : ℕ) (bs : List ℕ)
    → length bs < 3
    → units_loop fuel line_str table (b ∷ bs) ≡ unfinished
unfolding units_loop read_u32 drop parse_unit read_u16
units_loop_hangs zero line_str table b bs h = refl
units_loop_hangs (suc fuel) line_str table b [] h = units_loop_hangs fuel line_str table b [] h
units_loop_hangs (suc fuel) line_str table b (c ∷ []) h =
    units_loop_hangs fuel line_str table b (c ∷ []) h
units_loop_hangs (suc fuel) line_str table b (c ∷ d ∷ []) h =
    units_loop_hangs fuel line_str table b (c ∷ d ∷ []) h
units_loop_hangs (suc fuel) line_str table b (c ∷ d ∷ e ∷ bs) h = absurd (omega arith)

four_bytes : (n : ℕ) (bs : List ℕ) → n < 2 ^ 32 → read_u32 (bytes_of 4 n ++ bs) ≡ (n, bs)
unfolding read_u32
four_bytes n bs h =
    let b0 = n % 256 in
    let b1 = n / 256 % 256 in
    let b2 = n / 256 / 256 % 256 in
    let low = bit_or_fields_above 8 b1 b0 (omega arith) in
    let middle = bit_or_fields_above 16 b2 (b0 + b1 * 2 ^ 8) (omega arith) in
    let high =
      bit_or_fields_above 24 (n / 256 / 256 / 256 % 256) (b0 + b1 * 2 ^ 8 + b2 * 2 ^ 16)
        (omega arith) in
    rw (low, middle, high) (ap (λ t. (t, bs)) (omega arith))

-- A section of units that are given by their contents, with what is behind them.
abbrev pub section_of : List (List ℕ) → List ℕ → List ℕ
section_of [] tail = tail
section_of (u ∷ us) tail = bytes_of 4 (length u) ++ u ++ section_of us tail

and_then-ext :
    (o : TableOutcome) (f g : LineTable → TableOutcome)
    → ((table : LineTable) → f table ≡ g table)
    → and_then o f ≡ and_then o g
and_then-ext (loaded table) f g h = h table
and_then-ext (rejected table) f g h = refl
and_then-ext broken f g h = refl
and_then-ext unfinished f g h = refl

and_then-loaded :
    (o : TableOutcome) (f : LineTable → TableOutcome) (table : LineTable)
    → and_then o f ≡ TableOutcome.loaded table
    → (t : LineTable) × (o ≡ TableOutcome.loaded t) × (f t ≡ TableOutcome.loaded table)
and_then-loaded (loaded t) f table h = (t, refl, h)
and_then-loaded (rejected t) f table h = cc
and_then-loaded broken f table h = cc
and_then-loaded unfinished f table h = cc

-- One unit after the other, until one is not loaded.
abbrev pub all_units : List ℕ → LineTable → List (List ℕ) → TableOutcome
all_units line_str table [] = TableOutcome.loaded table
all_units line_str table (u ∷ us) =
    and_then (parse_unit line_str table u) (λ table'. all_units line_str table' us)

take-append : (xs ys : List ℕ) → take (length xs) (xs ++ ys) ≡ xs
take-append [] ys = refl
take-append (x ∷ xs) ys = ap (λ t. x ∷ t) (take-append xs ys)

pub drop-append : (xs ys : List ℕ) → drop (length xs) (xs ++ ys) ≡ ys
unfolding drop
drop-append [] ys = refl
drop-append (x ∷ xs) ys = drop-append xs ys

-- The length of a unit is not that of the 64-bit format.
abbrev pub IsShort : List ℕ → Type 0
IsShort u = length u < 0xffffffff

abbrev go_on : ℕ → List ℕ → List ℕ → TableOutcome → TableOutcome
go_on fuel line_str behind outcome =
    and_then outcome (λ table. units_loop fuel line_str table behind)

-- What a round does once the length of the unit is read.
abbrev with_length : ℕ → List ℕ → LineTable → ℕ × List ℕ → TableOutcome
with_length fuel line_str table (n, rest) =
    if n == 0xffffffff || ltb (length rest) n
    then TableOutcome.rejected table
    else go_on fuel line_str (drop n rest) (parse_unit line_str table (take n rest))

units_loop-with_length :
    (fuel : ℕ) (line_str : List ℕ) (table : LineTable) (b : ℕ) (bs : List ℕ)
    → units_loop (suc fuel) line_str table (b ∷ bs)
      ≡ with_length fuel line_str table (read_u32 (b ∷ bs))
unfolding units_loop parse_unit
units_loop-with_length fuel line_str table b bs = refl

-- One round of the loop, at a unit.
units_loop-unit :
    (fuel : ℕ) (line_str : List ℕ) (table : LineTable) (u behind : List ℕ)
    → IsShort u
    → units_loop (suc fuel) line_str table (bytes_of 4 (length u) ++ u ++ behind)
      ≡ go_on fuel line_str behind (parse_unit line_str table u)
units_loop-unit fuel line_str table u behind h =
    let long = length-append u behind in
    let usual : (length u == 0xffffffff || ltb (length (u ++ behind)) (length u)) ≡ false =
      ground (arith, long) in
    units_loop-with_length fuel line_str table _ _
    ∙ ap (with_length fuel line_str table) (four_bytes (length u) (u ++ behind) (omega (arith, h)))
    ∙ rw (usual, take-append u behind, drop-append u behind) refl

units_loop-section_of :
    (fuel : ℕ) (line_str : List ℕ) (table : LineTable) (us : List (List ℕ))
    → All IsShort us
    → length us ≤ fuel
    → units_loop fuel line_str table (section_of us []) ≡ all_units line_str table us
unfolding units_loop
units_loop-section_of fuel line_str table [] h enough = refl
units_loop-section_of zero line_str table (u ∷ us) h enough = absurd (omega arith)
units_loop-section_of (suc fuel) line_str table (u ∷ us) (h, hs) enough =
    units_loop-unit fuel line_str table u (section_of us []) h
    ∙ and_then-ext (parse_unit line_str table u) _ _
        (λ table'. units_loop-section_of fuel line_str table' us hs (omega arith))

length-section_of : (us : List (List ℕ)) → length us ≤ length (section_of us [])
length-section_of [] = omega arith
length-section_of (u ∷ us) =
    let rest = length-section_of us in let long = length-append u (section_of us []) in omega arith

-- A section that consists of units, each behind its length in four bytes and below 0xffffffff bytes long,
-- is parsed as one unit after the other, until one is not loaded.
pub parse_line_table-section_of :
    (line_str : List ℕ) (table : LineTable) (us : List (List ℕ))
    → All IsShort us
    → parse_line_table line_str table (section_of us []) ≡ all_units line_str table us
unfolding parse_line_table
parse_line_table-section_of line_str table us h =
    units_loop-section_of (length (section_of us [])) line_str table us h (length-section_of us)

-- If one to three bytes stand behind units that are all loaded, the loop over the section has not come to
-- an end after any number of rounds.
pub units_loop-tail :
    (fuel : ℕ) (line_str : List ℕ) (table table' : LineTable) (us : List (List ℕ)) (b : ℕ)
    (bs : List ℕ)
    → All IsShort us
    → all_units line_str table us ≡ TableOutcome.loaded table'
    → length bs < 3
    → units_loop fuel line_str table (section_of us (b ∷ bs)) ≡ unfinished
unfolding units_loop
units_loop-tail fuel line_str table table' [] b bs h all short =
    units_loop_hangs fuel line_str table b bs short
units_loop-tail zero line_str table table' (u ∷ us) b bs h all short = refl
units_loop-tail (suc fuel) line_str table table' (u ∷ us) b bs (h, hs) all short =
    units_loop-unit fuel line_str table u (section_of us (b ∷ bs)) h
    ∙ (let (table1, first, others) = and_then-loaded (parse_unit line_str table u) _ table' all in
        rw first (units_loop-tail fuel line_str table1 table' us b bs hs others short))
