-- ===== src/Dwarf/Tables/Files.antt =====
-- Round trips of the tables of version 5 in src/lineno.c.
use macos_c_debugger_arm.Dwarf.{read_u8, read_uleb128}
use macos_c_debugger_arm.Dwarf.Leb.{Uleb, read_uleb128-Uleb}
use macos_c_debugger_arm.Dwarf.Program.{FileName}
use macos_c_debugger_arm.Dwarf.Tables.{
  FormatDesc, text_at, after_cstr, read_form_string, file_fields, files_loop, parse_v5_file_names,
  descs_loop, read_format_descriptors,
}
use macos_c_debugger_arm.Prelude.{
  ℕ, zero, suc, append_assoc, ◌^◌, ◌≤◌, ◌<◌, ◌≡◌, refl, ap, ◌∙◌, List, [], ◌∷◌, ◌++◌, ◌==◌, length,
  take, All, value, Evaluated, arith, false, if◌then◌else◌,
}

abbrev pub IsCharacter : ℕ → Type 0
IsCharacter c = 0 < c

text_at-text :
    (text rest : List ℕ) → All IsCharacter text → text_at (text ++ (0 ∷ rest)) ≡ value text
unfolding text_at
text_at-text [] rest h = refl
text_at-text (c ∷ text) rest (h, hs) =
    let other : (c == 0) ≡ false = ground arith in rw (other, text_at-text text rest hs) refl

after_cstr-text :
    (text rest : List ℕ) → All IsCharacter text → after_cstr (text ++ (0 ∷ rest)) ≡ rest
unfolding after_cstr
after_cstr-text [] rest h = refl
after_cstr-text (c ∷ text) rest (h, hs) =
    let other : (c == 0) ≡ false = ground arith in rw (other, after_cstr-text text rest hs) refl

take-all : (n : ℕ) (xs : List ℕ) → length xs ≤ n → take n xs ≡ xs
take-all zero [] h = refl
take-all zero (x ∷ xs) h = absurd (omega arith)
take-all (suc n) [] h = refl
take-all (suc n) (x ∷ xs) h = ap (λ t. x ∷ t) (take-all n xs (omega arith))

-- A name that is read whole.
abbrev pub IsName : List ℕ → Type 0
IsName text = All IsCharacter text × (length text ≤ 511)

read_form_string-name :
    (line_str text rest : List ℕ)
    → IsName text
    → read_form_string line_str 8 (text ++ (0 ∷ rest)) ≡ value (text, rest)
unfolding read_form_string
read_form_string-name line_str text rest (h, short) =
    rw (text_at-text text rest h, after_cstr-text text rest h, take-all 511 text short) refl

-- The bytes of the files, each its name and the index of its directory.
pub data Files : List ℕ → List FileName → Type 0 where
  no_files : Files [] []
  file :
      {index bytes : List ℕ}
      → {files : List FileName} → (name : List ℕ) (n : ℕ) → IsName name
      → Uleb index n
      → length index ≤ 10
      → n < 2 ^ 64
      → Files bytes files
      → Files (name ++ (0 ∷ index ++ bytes)) (record { name = name; dir_index = n } ∷ files)

-- The descriptors of a name and the index of a directory.
abbrev pub name_and_index : List FormatDesc
name_and_index = record { type = 1; form = 8 } ∷ record { type = 2; form = 0x0f } ∷ []

file_fields-name_and_index :
    (line_str name index rest : List ℕ) (start : FileName) (n : ℕ)
    → IsName name
    → Uleb index n
    → length index ≤ 10
    → n < 2 ^ 64
    → file_fields line_str name_and_index start (name ++ (0 ∷ index ++ rest))
      ≡ value (record { name = name; dir_index = n }, rest)
unfolding file_fields
file_fields-name_and_index line_str name index rest start n h u short fits =
    rw
      (
        read_form_string-name line_str name (index ++ rest) h,
        read_uleb128-Uleb n index rest u short fits,
      )
      refl

files_loop-Files :
    (line_str bytes rest : List ℕ) (files : List FileName)
    → Files bytes files
    → files_loop line_str name_and_index (length files) (bytes ++ rest) ≡ value (files, rest)
unfolding files_loop
files_loop-Files line_str _ rest _ no_files = refl
files_loop-Files line_str _ rest _
      (file {index = index} {bytes = bytes} {files = files} name n h u short fits more) =
    rw
      (
        append_assoc name (0 ∷ index ++ bytes) rest,
        append_assoc index bytes rest,
        file_fields-name_and_index line_str name index (bytes ++ rest)
            (record { name = []; dir_index = 0 }) n h u short fits,
        files_loop-Files line_str bytes rest files more,
      )
      refl

read_format_descriptors-name_and_index :
    (rest : List ℕ) → read_format_descriptors (2 ∷ 1 ∷ 8 ∷ 2 ∷ 0x0f ∷ rest) ≡ (name_and_index, rest)
unfolding read_format_descriptors descs_loop read_u8
read_format_descriptors-name_and_index rest = refl

-- What parse_v5_file_names does behind the descriptors.
abbrev with_descs : List ℕ → List FormatDesc × List ℕ → Evaluated (List FileName × List ℕ)
with_descs line_str (descs, bs1) =
    let (entry_count, bs2) = read_uleb128 bs1 in
    if length descs == 0 then value ([], bs1) else files_loop line_str descs entry_count bs2

parse_v5_file_names-with_descs :
    (line_str bs : List ℕ)
    → parse_v5_file_names line_str bs ≡ with_descs line_str (read_format_descriptors bs)
unfolding parse_v5_file_names
parse_v5_file_names-with_descs line_str bs = refl

-- Of files that are encoded with a name and the index of a directory, each name without a 0 and of at most
-- 511 characters, followed by any bytes, the names and indices are read, and the cursor is behind them.
pub parse_v5_file_names-Files :
    (line_str count bytes rest : List ℕ) (files : List FileName)
    → Files bytes files
    → Uleb count (length files)
    → length count ≤ 10
    → length files < 2 ^ 64
    → parse_v5_file_names line_str (2 ∷ 1 ∷ 8 ∷ 2 ∷ 0x0f ∷ (count ++ (bytes ++ rest)))
      ≡ value (files, rest)
parse_v5_file_names-Files line_str count bytes rest files h u short fits =
    parse_v5_file_names-with_descs line_str _
    ∙ ap (with_descs line_str) (read_format_descriptors-name_and_index (count ++ (bytes ++ rest)))
    ∙ rw (read_uleb128-Uleb (length files) count (bytes ++ rest) u short fits)
        (files_loop-Files line_str bytes rest files h)
