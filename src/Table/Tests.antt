-- ===== src/Table/Tests.antt =====
-- The removal of an entry at a concrete input: the second of three in a table of five.
use macos_c_debugger_arm.Prelude.{ℕ, ◌≡◌, refl, [], ◌∷◌, arith}
use macos_c_debugger_arm.Table.{Table, live, remove_entry, shift_down}
use macos_c_debugger_arm.Table.Remove.{remove_at, remove_entry-live}

abbrev three : Table ℕ
three = record { entries = 4 ∷ 5 ∷ 6 ∷ 0 ∷ 0 ∷ []; count = 3 }

remove_runs : (remove_entry 0 three 1).entries ≡ 4 ∷ 6 ∷ 0 ∷ 0 ∷ 0 ∷ []
unfolding remove_entry shift_down
remove_runs = refl

remove_entry-live_example : live (remove_entry 0 three 1) ≡ remove_at 1 (4 ∷ 5 ∷ 6 ∷ [])
remove_entry-live_example = remove_entry-live 0 three 1 (omega arith) (omega arith)
