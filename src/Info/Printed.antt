-- ===== src/Info/Printed.antt =====
-- What the expressions of src/debugger.c need from the debug information (the record Outside), read off what
-- dwarfdump prints: the command that is run, `find_local_var` with `finish_var_if_match`, and `dwarf_lookup_struct`.
use macos_c_debugger_arm.Info.{Numbers}
use macos_c_debugger_arm.Info.Locals.{find_local_draft}
use macos_c_debugger_arm.Info.Structs.{lookup_struct}
use macos_c_debugger_arm.Objects.{Host, path_max, silent_text}
use macos_c_debugger_arm.Prelude.{
  ℕ, ◌+◌, Option, none, some, List, [], ◌∷◌, ◌++◌, leb, if◌then◌else◌, length,
}
use macos_c_debugger_arm.Variables.{Outside, complete_var_type}

-- "dwarfdump --debug-info '"
abbrev pub debug_info_text : List ℕ
debug_info_text =
    100 ∷ 119 ∷ 97 ∷ 114 ∷ 102 ∷ 100 ∷ 117 ∷ 109 ∷ 112 ∷ 32 ∷ 45 ∷ 45 ∷ 100 ∷ 101 ∷ 98 ∷ 117 ∷ 103
    ∷ 45 ∷ 105 ∷ 110 ∷ 102 ∷ 111 ∷ 32 ∷ 39 ∷ []

-- None where the path is not known, and none within where the command is too long or cannot be run.
unfoldable pub printed_lines : Host → List ℕ → Option (Option (List (List ℕ)))
printed_lines host [] = none
printed_lines host (c ∷ cs) =
    let command = debug_info_text ++ (c ∷ cs) ++ silent_text in
    if leb (path_max + 64) (length command)
    then some none
    else elim (host.popen command) [ none ↦ some none | some (lines, closed) ↦ some (some lines) ]

abbrev known_lines : Option (Option (List (List ℕ))) → List (List ℕ)
known_lines (some (some lines)) = lines
known_lines (some none) = []
known_lines none = []

-- CDBG_MAX_STRUCT_MEMBERS
abbrev pub max_struct_members : ℕ
max_struct_members = 32

-- The structs alone, for the sizes of the elements of arrays.
unfoldable pub structs_outside : Numbers → (List ℕ → Option (ℕ × List ℕ)) → List (List ℕ) → Outside
structs_outside numbers strtoul lines = record {
  find_local_var = λ name. none;
  dwarf_lookup_struct = λ name. lookup_struct numbers name max_struct_members lines;
  strtoul = strtoul;
}

-- With the local variables at the program counter, each with its whole type.
unfoldable pub printed_outside :
    Numbers → (List ℕ → Option (ℕ × List ℕ)) → Option (Option (List (List ℕ))) → ℕ → Outside
printed_outside numbers strtoul printed link_pc =
    let lines = known_lines printed in
    let structs = structs_outside numbers strtoul lines in
    record structs {
      find_local_var = λ name. elim (find_local_draft numbers lines link_pc name) [
        | none ↦ none
        | some draft ↦ some (complete_var_type structs draft.type, draft.base, draft.fbreg_offset)
      ];
    }
