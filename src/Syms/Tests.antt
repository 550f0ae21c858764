-- ===== src/Syms/Tests.antt =====
-- The table of symbols at concrete inputs.
use macos_c_debugger_arm.Lineno.{same_text, best_by, choose}
use macos_c_debugger_arm.Lineno.Best.{Among}
use macos_c_debugger_arm.Dwarf.Program.{drop}
use macos_c_debugger_arm.Macho.Commands.{joined}
use macos_c_debugger_arm.Syms.Load.{symbols_loop}
use macos_c_debugger_arm.Syms.Symtab.{symbols_of, symbols_loop-joined}
use macos_c_debugger_arm.Syms.{syms_push, nlist_type_char}
use macos_c_debugger_arm.Prelude.{
  bytes_of, value, List, ◌++◌, ℕ, ◌+◌, ◌≤◌, ◌≡◌, refl, true, some, [], ◌∷◌, All,
}
use macos_c_debugger_arm.Syms.{
  SymEntry, Syms, link_name, find_name, lookup_name, is_function, syms_runtime_addr, best_symbol,
  lookup_symbol_for_pc, max_symbol_offset,
}
use macos_c_debugger_arm.Syms.Lookup.{lookup_symbol_for_pc_lem}

-- A function "_f" at 0x1000, data "_d" at 0x1800 and a function "_g" at 0x2000.
abbrev f_entry : SymEntry
f_entry = record { address = 0x1000; type = 84; name = 95 ∷ 102 ∷ [] }

abbrev d_entry : SymEntry
d_entry = record { address = 0x1800; type = 68; name = 95 ∷ 100 ∷ [] }

abbrev g_entry : SymEntry
g_entry = record { address = 0x2000; type = 116; name = 95 ∷ 103 ∷ [] }

abbrev table : Syms
table = record { entries = f_entry ∷ d_entry ∷ g_entry ∷ []; slide = 0x100 }

g_found : lookup_name table (103 ∷ []) ≡ some g_entry
unfolding lookup_name find_name link_name same_text
g_found = refl

abbrev FoundAt : SymEntry → ℕ → Type 0
FoundAt e offset =
    Among e table.entries
    × (is_function e ≡ true)
    × (syms_runtime_addr table e.address + offset ≡ 0x1a04)
    × (offset ≤ max_symbol_offset)
    × All
        (λ other.
          is_function other ≡ true
          → syms_runtime_addr table other.address ≤ 0x1a04
          → syms_runtime_addr table other.address ≤ syms_runtime_addr table e.address)
        table.entries

lookup_symbol_for_pc_lem_example : FoundAt f_entry 0x904
lookup_symbol_for_pc_lem_example =
    lookup_symbol_for_pc_lem table 0x1a04 0x904 f_entry
      (unfold lookup_symbol_for_pc best_symbol best_by choose in refl)

-- The name "_f" at index 1, an entry of a function and one of debugging.
abbrev names : List ℕ
names = 0 ∷ 95 ∷ 102 ∷ []

abbrev function : List ℕ
function = bytes_of 4 1 ++ (0x0f ∷ 1 ∷ 0 ∷ 0 ∷ []) ++ bytes_of 8 0x1000

abbrev stab : List ℕ
stab = bytes_of 4 1 ++ (0x24 ∷ 1 ∷ 0 ∷ 0 ∷ []) ++ bytes_of 8 0x1000

symbols_loop-joined_example :
    symbols_loop 2 4 (names ++ (0 ∷ [])) (joined (function ∷ stab ∷ []) []) table
    ≡ value (symbols_of 4 (names ++ (0 ∷ [])) (function ∷ stab ∷ []) table)
symbols_loop-joined_example =
    symbols_loop-joined (function ∷ stab ∷ []) names [] [] table (refl, (refl, tt))

-- Only the function is added.
loads_the_function :
    symbols_of 4 (names ++ (0 ∷ [])) (function ∷ stab ∷ []) table
    ≡ syms_push table 0x1000 84 (95 ∷ 102 ∷ [])
unfolding syms_push drop nlist_type_char
loads_the_function = refl
