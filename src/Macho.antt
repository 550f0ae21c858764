-- ===== src/Macho.antt =====
-- The readers of Mach-O files of src/lineno.c and src/syms.c: `macho_text_vmaddr`, which both files have, and
-- `macho_find_section`. A pointer into the mapped file is the bytes from it to the end, so that one that has gone
-- beyond the end is no bytes; a read beyond the end is undefined. The offsets of the fields are those of the
-- structures in <mach-o/loader.h>, and an integer stands in little-endian order.

pub mod Commands
mod Tests
use macos_c_debugger_arm.Dwarf.Program.{drop}
use macos_c_debugger_arm.Prelude.{
  ℕ, zero, suc, ◌+◌, ◌*◌, Bool, true, false, Option, none, some, List, [], ◌∷◌, ◌==◌, ltb,
  if◌then◌else◌, length, take, value_of, u32, Evaluated, value, fails, undefined, ◌>>=◌,
}

-- The unsigned integer of `n` bytes at the offset `k`.
unfoldable pub field : ℕ → ℕ → List ℕ → Evaluated ℕ
unfolding drop
field n k bs = if ltb (length bs) (k + n) then undefined else value (value_of (take n (drop k bs)))

-- `strcmp(a, b) == 0`, where `b` is a literal.
unfoldable pub strcmp : List ℕ → List ℕ → Evaluated Bool
strcmp [] b = undefined
strcmp (x ∷ xs) [] = value (x == 0)
strcmp (x ∷ xs) (y ∷ ys) = let rest = strcmp xs ys in if x == y then rest else value false

-- `strncmp(a, b, n) == 0`, where `b` is a literal.
unfoldable pub strncmp : ℕ → List ℕ → List ℕ → Evaluated Bool
strncmp zero a b = value true
strncmp (suc n) [] b = undefined
strncmp (suc n) (x ∷ xs) [] = value (x == 0)
strncmp (suc n) (x ∷ xs) (y ∷ ys) =
    let rest = strncmp n xs ys in if x == y then rest else value false

abbrev pub sect_name_eq : List ℕ → List ℕ → Evaluated Bool
sect_name_eq a b = strncmp 16 a b

-- LC_SEGMENT_64, MH_MAGIC_64, "__TEXT".
abbrev pub lc_segment_64 : ℕ
lc_segment_64 = 0x19

abbrev pub mh_magic_64 : ℕ
mh_magic_64 = 0xfeedfacf

abbrev pub text_name : List ℕ
text_name = 95 ∷ 95 ∷ 84 ∷ 69 ∷ 88 ∷ 84 ∷ []

-- The loop over the load commands from `bs` on: 0 where no segment is named "__TEXT".
unfoldable pub text_loop : ℕ → List ℕ → Evaluated ℕ
text_loop zero bs = value 0
text_loop (suc n) bs =
    if ltb (length bs) 8
    then value 0
    else (field 4 0 bs >>= λ cmd.
        (field 4 4 bs >>= λ cmdsize.
        let rest = text_loop n (drop cmdsize bs) in
        if cmd == lc_segment_64
        then (strcmp (drop 8 bs) text_name >>= λ same. if same then field 8 24 bs else rest)
        else rest))

-- What both readers do with a file: 32 bytes of header, with the number of commands.
unfoldable pub commands_of : List ℕ → Evaluated (Option (ℕ × List ℕ))
commands_of file =
    if ltb (length file) 32
    then value none
    else (field 4 0 file >>= λ magic.
        if magic == mh_magic_64
        then (field 4 16 file >>= λ ncmds. value (some (ncmds, drop 32 file)))
        else value none)

unfoldable pub macho_text_vmaddr : List ℕ → Evaluated ℕ
macho_text_vmaddr file = commands_of file >>= λ found. elim found [
  | none ↦ value 0
  | some (ncmds, bs) ↦ text_loop ncmds bs
]

-- The loop over the sections from `bs` on: the offset and the size of the one that has both names. The size is
-- cut to 32 bits.
unfoldable pub sections_loop : ℕ → List ℕ → List ℕ → List ℕ → Evaluated (Option (ℕ × ℕ))
sections_loop zero segname sectname bs = value none
sections_loop (suc n) segname sectname bs =
    let rest = sections_loop n segname sectname (drop 80 bs) in
    sect_name_eq (drop 16 bs) segname >>= λ in_segment.
    if in_segment
    then (sect_name_eq bs sectname >>= λ same.
        if same
        then (field 4 48 bs >>= λ offset.
            (field 8 40 bs >>= λ size. value (some (offset, u32 size))))
        else rest)
    else rest

unfoldable pub find_loop : ℕ → List ℕ → List ℕ → List ℕ → Evaluated (Option (ℕ × ℕ))
find_loop zero segname sectname bs = value none
find_loop (suc n) segname sectname bs =
    if ltb (length bs) 8
    then value none
    else (field 4 0 bs >>= λ cmd.
        (field 4 4 bs >>= λ cmdsize.
        let rest = find_loop n segname sectname (drop cmdsize bs) in
        if cmd == lc_segment_64
        then (field 4 64 bs >>= λ nsects.
            (sections_loop nsects segname sectname (drop 72 bs) >>= λ found. elim found [
              | none ↦ rest
              | some place ↦ value (some place)
            ]))
        else rest))

unfoldable pub macho_find_section : List ℕ → List ℕ → List ℕ → Evaluated (Option (ℕ × ℕ))
macho_find_section file segname sectname = commands_of file >>= λ found. elim found [
  | none ↦ value none
  | some (ncmds, bs) ↦ find_loop ncmds segname sectname bs
]
