-- ===== src/Lineno/Tests.antt =====
-- The lookups at concrete inputs: three entries of one file, at a slide of 0x100.
use macos_c_debugger_arm.Lineno.{
  LineEntry, Lineno, file_matches, has_part, begins_with, same_text, base_name, lookup_pc,
  lookup_line_unique,
}
use macos_c_debugger_arm.Lineno.Best.{Among}
use macos_c_debugger_arm.Lineno.Lookup.{at, lookup_pc_lem}
use macos_c_debugger_arm.Lineno.Unique.{IsUnique, IsAmbiguous, lookup_line_unique_lem}
use macos_c_debugger_arm.Prelude.{
  ℕ, ◌≤◌, ◌<◌, ◌≡◌, ◌≢◌, ◌⊎◌, refl, true, none, some, List, [], ◌∷◌, All,
}

-- "/a.c"
abbrev file : List ℕ
file = 47 ∷ 97 ∷ 46 ∷ 99 ∷ []

abbrev entry : ℕ → ℕ → LineEntry
entry address line = record { address = address; line = line; column = 0; file = file }

abbrev table : Lineno
table = record { entries = entry 0x1000 7 ∷ entry 0x1020 9 ∷ entry 0x1010 8 ∷ []; slide = 0x100 }

base_name_runs : file_matches file (97 ∷ 46 ∷ 99 ∷ []) ≡ true
unfolding file_matches has_part begins_with same_text base_name
base_name_runs = refl

lookup_pc_lem_example :
    ((e : LineEntry)
      → lookup_pc table 0x1114 ≡ some e
      → Among e table.entries
        × (at table e ≤ 0x1114)
        × All (λ other. at table other ≤ 0x1114 → at table other ≤ at table e) table.entries)
    × (lookup_pc table 0x1114 ≡ none → All (λ other. 0x1114 < at table other) table.entries)
lookup_pc_lem_example = lookup_pc_lem table 0x1114

lookup_line_unique_lem_example :
    ((e : LineEntry) → lookup_line_unique table 9 ≡ some e → IsUnique 9 e table.entries)
    × (lookup_line_unique table 9 ≡ none
        → All (λ other. other.line ≢ 9) table.entries ⊎ IsAmbiguous 9 table.entries)
lookup_line_unique_lem_example = lookup_line_unique_lem table 9
