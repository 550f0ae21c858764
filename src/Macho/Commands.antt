-- ===== src/Macho/Commands.antt =====
-- The readers of Mach-O files of src/lineno.c and src/syms.c on a file that is a list of load commands.
use macos_c_debugger_arm.Dwarf.Program.{drop}
use macos_c_debugger_arm.Dwarf.Units.Ends.{drop-append}
use macos_c_debugger_arm.Lineno.{same_text}
use macos_c_debugger_arm.Macho.{
  field, strcmp, lc_segment_64, mh_magic_64, text_name, text_loop, commands_of, macho_text_vmaddr,
}
use macos_c_debugger_arm.Prelude.{
  subst, ℕ, zero, suc, ◌+◌, ◌≤◌, ◌<◌, ◌≡◌, refl, ap, Bool, true, false, List, [], ◌∷◌, ◌++◌, ◌==◌,
  ltb, leb, if◌then◌else◌, length, take, value_of, value, All, arith, length-append, inl, inr,
  Bool-cases, ◌&&◌, ◌||◌, not,
}

-- Any bytes stand behind a command: they do not change what is read within it.
part-append :
    (n k : ℕ) (c rest : List ℕ) → k + n ≤ length c → take n (drop k (c ++ rest)) ≡ take n (drop k c)
unfolding drop
part-append zero k c rest h = refl
part-append (suc n) (suc k) [] rest h = absurd (omega arith)
part-append (suc n) (suc k) (b ∷ c) rest h = part-append (suc n) k c rest (omega arith)
part-append (suc n) zero [] rest h = absurd (omega arith)
part-append (suc n) zero (b ∷ c) rest h = ap (λ t. b ∷ t) (part-append n zero c rest (omega arith))

-- The integer of `n` bytes at `k`, where the command has it.
abbrev pub part : ℕ → ℕ → List ℕ → ℕ
part n k c = value_of (take n (drop k c))

pub field-append :
    (n k : ℕ) (c rest : List ℕ) → k + n ≤ length c → field n k (c ++ rest) ≡ value (part n k c)
unfolding field
field-append n k c rest h =
    let long = length-append c rest in
    let within : ltb (length (c ++ rest)) (k + n) ≡ false = ground (arith, long) in
    rw (within, part-append n k c rest h) refl

-- strcmp with a shorter text is the comparison with the text and its 0.
strcmp-same_text :
    (a b rest : List ℕ)
    → length b < length a
    → strcmp (a ++ rest) b ≡ value (same_text (take (suc (length b)) a) (b ++ (0 ∷ [])))
unfolding strcmp same_text
strcmp-same_text [] b rest h = absurd (omega arith)
strcmp-same_text (x ∷ a) [] rest h = elim (Bool-cases (x == 0)) [
  | inl e ↦ rw e refl
  | inr e ↦ rw e refl
]
strcmp-same_text (x ∷ a) (y ∷ b) rest h = elim (Bool-cases (x == y)) [
  | inl e ↦ rw (e, strcmp-same_text a b rest (omega arith)) refl
  | inr e ↦ rw e refl
]

-- A command that is as long as it says, a segment long enough for its fields.
abbrev pub is_command : List ℕ → Bool
is_command c =
    part 4 4 c == length c
    && (leb 8 (length c) && (leb 72 (length c) || not (part 4 0 c == lc_segment_64)))

abbrev pub IsCommand : List ℕ → Type 0
IsCommand c = is_command c ≡ true

-- The commands one after the other, with what is behind them.
abbrev pub joined : List (List ℕ) → List ℕ → List ℕ
joined [] rest = rest
joined (c ∷ cs) rest = c ++ joined cs rest

-- The name of a segment, at offset 8, is the text.
abbrev pub is_text : List ℕ → Bool
is_text c = same_text (take 7 (drop 8 c)) (text_name ++ (0 ∷ []))

-- The address of the first segment that has the name, 0 where there is none.
abbrev pub text_of : List (List ℕ) → ℕ
text_of [] = 0
text_of (c ∷ cs) =
    if part 4 0 c == lc_segment_64
    then (if is_text c then part 8 24 c else text_of cs)
    else text_of cs

drop-within : (k : ℕ) (c rest : List ℕ) → k ≤ length c → drop k (c ++ rest) ≡ drop k c ++ rest
unfolding drop
drop-within zero c rest h = refl
drop-within (suc k) [] rest h = absurd (omega arith)
drop-within (suc k) (b ∷ c) rest h = drop-within k c rest (omega arith)

length-drop : (k : ℕ) (c : List ℕ) → k ≤ length c → length (drop k c) + k ≡ length c
unfolding drop
length-drop zero c h = omega arith
length-drop (suc k) [] h = absurd (omega arith)
length-drop (suc k) (b ∷ c) h = omega (arith, length-drop k c (omega arith))

strcmp-is_text :
    (c rest : List ℕ) → 72 ≤ length c → strcmp (drop 8 (c ++ rest)) text_name ≡ value (is_text c)
strcmp-is_text c rest h =
    let long = length-drop 8 c (omega (arith, h)) in
    rw (drop-within 8 c rest (omega (arith, h)))
      (strcmp-same_text (drop 8 c) text_name rest (omega (arith, long, h)))

command-length : (c : List ℕ) → IsCommand c → part 4 4 c ≡ length c
command-length c h = ground (arith, h)

command-has_sizes : (c : List ℕ) → IsCommand c → 8 ≤ length c
command-has_sizes c h = ground (arith, h)

segment-has_fields :
    (c : List ℕ) → IsCommand c → (part 4 0 c == lc_segment_64) ≡ true → 72 ≤ length c
segment-has_fields c h e = ground (arith, h, e)

text_loop-joined :
    (cs : List (List ℕ)) (rest : List ℕ)
    → All IsCommand cs
    → text_loop (length cs) (joined cs rest) ≡ value (text_of cs)
unfolding text_loop
text_loop-joined [] rest h = refl
text_loop-joined (c ∷ cs) rest (h, hs) =
    let behind = joined cs rest in
    let sizes = command-has_sizes c h in
    let long = length-append c behind in
    let usual : ltb (length (c ++ behind)) 8 ≡ false = ground (arith, long, sizes) in
    let known = text_loop-joined cs rest hs in
    rw
      (
        usual,
        field-append 4 0 c behind (omega (arith, sizes)),
        field-append 4 4 c behind (omega (arith, sizes)),
        command-length c h,
        drop-append c behind,
        known,
      )
      (elim (Bool-cases (part 4 0 c == lc_segment_64)) [
        | inr e ↦ rw e refl
        | inl e ↦
            let wide = segment-has_fields c h e in
            rw (e, strcmp-is_text c behind wide, field-append 8 24 c behind (omega (arith, wide)))
              (elim (Bool-cases (is_text c)) [ inl t ↦ rw t refl | inr t ↦ rw t refl ])
      ])

-- For a header of 32 bytes with the magic number and the number of commands, and commands that are as long
-- as they say and have the fields that are read, the address is that of the first segment with the name
-- __TEXT, and 0 if there is none; nothing outside of the file is read.
pub macho_text_vmaddr-joined :
    (header : List ℕ) (cs : List (List ℕ)) (rest : List ℕ)
    → length header ≡ 32
    → part 4 0 header ≡ mh_magic_64
    → part 4 16 header ≡ length cs
    → All IsCommand cs
    → macho_text_vmaddr (header ++ joined cs rest) ≡ value (text_of cs)
unfolding macho_text_vmaddr commands_of
macho_text_vmaddr-joined header cs rest size magic count h =
    let behind = joined cs rest in
    let long = length-append header behind in
    let usual : ltb (length (header ++ behind)) 32 ≡ false = ground (arith, long, size) in
    let start : drop 32 (header ++ behind) ≡ behind =
      subst (λ n. drop n (header ++ behind) ≡ behind) size (drop-append header behind) in
    rw
      (
        usual,
        field-append 4 0 header behind (omega (arith, size)),
        field-append 4 16 header behind (omega (arith, size)),
        magic,
        count,
        start,
      )
      (text_loop-joined cs rest h)
