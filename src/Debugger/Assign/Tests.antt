-- ===== src/Debugger/Assign/Tests.antt =====
-- The command set at concrete inputs.
use macos_c_debugger_arm.Debugger.Assign.{split_equal}
use macos_c_debugger_arm.Debugger.Assign.Split.{split_equal-comparison}
use macos_c_debugger_arm.Prelude.{◌≡◌, refl, some, [], ◌∷◌}

-- "x a==b"
split_equal-comparison_example :
    split_equal 0 (120 ∷ 32 ∷ 97 ∷ 61 ∷ 61 ∷ 98 ∷ []) ≡ some (120 ∷ 32 ∷ 97 ∷ 61 ∷ [], 98 ∷ [])
split_equal-comparison_example =
    split_equal-comparison 0 (120 ∷ 32 ∷ 97 ∷ []) (98 ∷ []) (refl, (refl, (refl, tt))) refl
