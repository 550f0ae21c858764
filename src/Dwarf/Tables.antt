-- ===== src/Dwarf/Tables.antt =====
-- The tables of directories and files in the header of a line table, in src/lineno.c: `read_cstr` to
-- `parse_file_names_v4`. Allocation does not fail. `line_str` is the section of that name, empty where it is NULL; a
-- string that has no 0 before the end of its cursor is read beyond it, which is undefined here.
pub mod Files
pub mod Rounds
use macos_c_debugger_arm.Dwarf.{read_u8, uleb_loop, read_uleb128}
use macos_c_debugger_arm.Dwarf.Program.{FileName, drop}
use macos_c_debugger_arm.Prelude.{
  ℕ, zero, suc, ◌+◌, ◌≤◌, Bool, true, false, ◌&&◌, List, [], ◌∷◌, ◌++◌, ◌==◌, ltb, leb,
  if◌then◌else◌, length, take, Evaluated, value, fails, undefined, ◌>>=◌,
}

-- The text that a pointer into the bytes is: up to the 0.
unfoldable pub text_at : List ℕ → Evaluated (List ℕ)
text_at [] = undefined
text_at (b ∷ bs) = if b == 0 then value [] else (text_at bs >>= λ text. value (b ∷ text))

-- The cursor behind read_cstr.
unfoldable pub after_cstr : List ℕ → List ℕ
after_cstr [] = []
after_cstr (b ∷ bs) = let rest = after_cstr bs in if b == 0 then bs else rest

unfoldable pub lookup_line_str : List ℕ → ℕ → Evaluated (List ℕ)
unfolding text_at drop
lookup_line_str line_str offset =
    if leb (length line_str) offset then value [] else text_at (drop offset line_str)

pub record FormatDesc : Type 0 where
  pub type : ℕ
  pub form : ℕ

unfoldable pub descs_loop : ℕ → List ℕ → List FormatDesc × List ℕ
unfolding uleb_loop
descs_loop zero bs = ([], bs)
descs_loop (suc n) bs =
    let (type, bs1) = read_uleb128 bs in
    let (form, bs2) = read_uleb128 bs1 in
    let (descs, rest) = descs_loop n bs2 in (record { type = type; form = form } ∷ descs, rest)

unfoldable pub read_format_descriptors : List ℕ → List FormatDesc × List ℕ
unfolding read_u8 descs_loop
read_format_descriptors bs = let (count, rest) = read_u8 bs in descs_loop count rest

-- DW_FORM_line_strp is 0x1f, DW_FORM_string 8; a buffer has CDBG_LINENO_MAX_FILE characters.
unfoldable pub read_form_string : List ℕ → ℕ → List ℕ → Evaluated (List ℕ × List ℕ)
unfolding lookup_line_str text_at after_cstr
read_form_string line_str form bs =
    if form == 0x1f
    then (if length bs == 0
        then fails
        else let (offset, rest) = read_uleb128 bs in
          lookup_line_str line_str offset >>= λ text. value (take 511 text, rest))
    else if form == 8
    then (text_at bs >>= λ text. value (take 511 text, after_cstr bs))
    else fails

-- Sixteen bytes, DW_FORM_data16.
unfoldable pub skip_data16 : List ℕ → Evaluated (List ℕ)
unfolding drop
skip_data16 bs = if ltb (length bs) 16 then fails else value (drop 16 bs)

-- DW_FORM_udata is 0x0f, DW_FORM_data16 0x1e.
unfoldable pub skip_form_value : ℕ → List ℕ → Evaluated (List ℕ)
unfolding skip_data16 after_cstr
skip_form_value form bs =
    if form == 0x0f
    then value (read_uleb128 bs).1
    else if form == 0x1e
    then skip_data16 bs
    else if form == 8
    then value (after_cstr bs)
    else if form == 0x1f
    then value (read_uleb128 bs).1
    else fails

unfoldable pub skip_padding_zeros : List ℕ → List ℕ
skip_padding_zeros [] = []
skip_padding_zeros (b ∷ bs) = let rest = skip_padding_zeros bs in if b == 0 then rest else b ∷ bs

-- One directory: the fields in the order of the descriptors. DW_LNCT_path is 1.
unfoldable pub directory_fields :
    List ℕ → List FormatDesc → List ℕ → List ℕ → Evaluated (List ℕ × List ℕ)
unfolding read_form_string skip_form_value
directory_fields line_str [] path bs = value (path, bs)
directory_fields line_str (desc ∷ descs) path bs =
    if desc.type == 1
    then (read_form_string line_str desc.form bs >>= λ (text, rest).
        directory_fields line_str descs text rest)
    else (skip_form_value desc.form bs >>= λ rest. directory_fields line_str descs path rest)

unfoldable pub directories_loop :
    List ℕ → List FormatDesc → ℕ → List ℕ → Evaluated (List (List ℕ) × List ℕ)
unfolding directory_fields
directories_loop line_str descs zero bs = value ([], bs)
directories_loop line_str descs (suc n) bs =
    directory_fields line_str descs [] bs >>= λ (path, rest).
    directories_loop line_str descs n rest >>= λ (dirs, behind). value (path ∷ dirs, behind)

unfoldable pub parse_v5_directories : List ℕ → List ℕ → Evaluated (List (List ℕ) × List ℕ)
unfolding read_format_descriptors directories_loop skip_padding_zeros
parse_v5_directories line_str bs =
    let (descs, bs1) = read_format_descriptors bs in
    let (entry_count, bs2) = read_uleb128 bs1 in
    if length descs == 0
    then value ([], bs1)
    else (directories_loop line_str descs entry_count bs2 >>= λ (dirs, rest).
        value (dirs, skip_padding_zeros rest))

-- One file. DW_LNCT_directory_index is 2, DW_LNCT_MD5 is 5.
unfoldable pub file_fields :
    List ℕ → List FormatDesc → FileName → List ℕ → Evaluated (FileName × List ℕ)
unfolding read_form_string skip_form_value skip_data16
file_fields line_str [] file bs = value (file, bs)
file_fields line_str (desc ∷ descs) file bs =
    let (dir_index, behind) = read_uleb128 bs in
    let indexed = file_fields line_str descs (record file { dir_index = dir_index }) behind in
    if desc.type == 1
    then (read_form_string line_str desc.form bs >>= λ (text, rest).
        file_fields line_str descs (record file { name = text }) rest)
    else if desc.type == 2 && desc.form == 0x0f
    then indexed
    else if desc.type == 5 && desc.form == 0x1e
    then (skip_data16 bs >>= λ rest. file_fields line_str descs file rest)
    else (skip_form_value desc.form bs >>= λ rest. file_fields line_str descs file rest)

unfoldable pub files_loop :
    List ℕ → List FormatDesc → ℕ → List ℕ → Evaluated (List FileName × List ℕ)
unfolding file_fields
files_loop line_str descs zero bs = value ([], bs)
files_loop line_str descs (suc n) bs =
    file_fields line_str descs (record { name = []; dir_index = 0 }) bs >>= λ (file, rest).
    files_loop line_str descs n rest >>= λ (files, behind). value (file ∷ files, behind)

unfoldable pub parse_v5_file_names : List ℕ → List ℕ → Evaluated (List FileName × List ℕ)
unfolding read_format_descriptors files_loop
parse_v5_file_names line_str bs =
    let (descs, bs1) = read_format_descriptors bs in
    let (entry_count, bs2) = read_uleb128 bs1 in
    if length descs == 0 then value ([], bs1) else files_loop line_str descs entry_count bs2

-- The directories of version 4, up to an empty one. Each takes a byte at least, so the length of the cursor is
-- enough fuel.
unfoldable pub directories_v4 : ℕ → List ℕ → Evaluated (List (List ℕ) × List ℕ)
unfolding text_at after_cstr
directories_v4 fuel [] = value ([], [])
directories_v4 zero (b ∷ bs) = undefined
directories_v4 (suc fuel) (b ∷ bs) =
    let rest = directories_v4 fuel (after_cstr (b ∷ bs)) in
    if b == 0
    then value ([], bs)
    else (text_at (b ∷ bs) >>= λ dir. (rest >>= λ (dirs, behind). value (dir ∷ dirs, behind)))

unfoldable pub parse_file_names_v4 : ℕ → List ℕ → Evaluated (List FileName × List ℕ)
unfolding text_at after_cstr skip_data16
parse_file_names_v4 fuel [] = value ([], [])
parse_file_names_v4 zero (b ∷ bs) = undefined
parse_file_names_v4 (suc fuel) (b ∷ bs) =
    let (dir_index, bs1) = read_uleb128 (after_cstr (b ∷ bs)) in
    if b == 0
    then value ([], bs)
    else (skip_data16 bs1 >>= λ bs2.
        (text_at (b ∷ bs) >>= λ name.
        (parse_file_names_v4 fuel bs2 >>= λ (files, behind).
        value (record { name = name; dir_index = dir_index } ∷ files, behind))))
