-- ===== src/Objects.antt =====
-- The files that src/syms.c and src/lineno.c look at: the executable, and the object with the debug information
-- beside it (`dsym_object_path`, and `dsym_dwarf_path`, which is the same). A text is the list of its characters.
-- What the files hold and what the tools print is a parameter.
use macos_c_debugger_arm.Prelude.{
  ℕ, Bool, Option, none, some, List, [], ◌∷◌, ◌++◌, leb, if◌then◌else◌, length,
}

-- The calls of the system and of the C library.
pub record Host : Type 0 where
  -- `map_file`: open, fstat and mmap; none where one fails or the file is empty
  pub map_file : List ℕ → Option (List ℕ)
  -- access with R_OK
  pub can_read : List ℕ → Bool
  pub base_name : List ℕ → List ℕ
  pub dir_name : List ℕ → List ℕ
  -- popen: the lines that fgets gives, and whether pclose returns 0
  pub popen : List ℕ → Option (List (List ℕ) × Bool)
  -- sscanf with "%llx %c %255s", "%c %255s" and "0x%llx %u %u": all of the fields, or none
  pub scan_symbol : List ℕ → Option (ℕ × ℕ × List ℕ)
  pub scan_type_and_name : List ℕ → Option (ℕ × List ℕ)
  pub scan_row : List ℕ → Option (ℕ × ℕ × ℕ)

-- PATH_MAX
abbrev pub path_max : ℕ
path_max = 1024

-- ".dSYM/Contents/Resources/DWARF/"
abbrev pub dsym_folder : List ℕ
dsym_folder =
    46 ∷ 100 ∷ 83 ∷ 89 ∷ 77 ∷ 47 ∷ 67 ∷ 111 ∷ 110 ∷ 116 ∷ 101 ∷ 110 ∷ 116 ∷ 115 ∷ 47 ∷ 82 ∷ 101
    ∷ 115 ∷ 111 ∷ 117 ∷ 114 ∷ 99 ∷ 101 ∷ 115 ∷ 47 ∷ 68 ∷ 87 ∷ 65 ∷ 82 ∷ 70 ∷ 47 ∷ []

unfoldable pub dsym_object_path : Host → List ℕ → Option (List ℕ)
dsym_object_path host executable =
    let path = executable ++ dsym_folder ++ host.base_name executable in
    if leb path_max (length executable)
    then none
    else if leb path_max (length path)
    then none
    else if host.can_read path
    then some path
    else none

-- "nm -n '", "dwarfdump --debug-line '" and "' 2>/dev/null"
abbrev pub nm_text : List ℕ
nm_text = 110 ∷ 109 ∷ 32 ∷ 45 ∷ 110 ∷ 32 ∷ 39 ∷ []

abbrev pub dwarfdump_text : List ℕ
dwarfdump_text =
    100 ∷ 119 ∷ 97 ∷ 114 ∷ 102 ∷ 100 ∷ 117 ∷ 109 ∷ 112 ∷ 32 ∷ 45 ∷ 45 ∷ 100 ∷ 101 ∷ 98 ∷ 117 ∷ 103
    ∷ 45 ∷ 108 ∷ 105 ∷ 110 ∷ 101 ∷ 32 ∷ 39 ∷ []

abbrev pub silent_text : List ℕ
silent_text = 39 ∷ 32 ∷ 50 ∷ 62 ∷ 47 ∷ 100 ∷ 101 ∷ 118 ∷ 47 ∷ 110 ∷ 117 ∷ 108 ∷ 108 ∷ []
