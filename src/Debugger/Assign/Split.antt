-- ===== src/Debugger/Assign/Split.antt =====
-- How the argument of set is split in src/debugger.c.
use macos_c_debugger_arm.Debugger.Assign.{is_compare, begins_equal, split_equal}
use macos_c_debugger_arm.Prelude.{
  ℕ, ◌≡◌, refl, false, some, List, [], ◌∷◌, ◌++◌, ◌==◌, All, inl, inr, Bool-cases,
}

abbrev pub IsNotEqual : ℕ → Type 0
IsNotEqual c = (c == 61) ≡ false

abbrev pub last_of : ℕ → List ℕ → ℕ
last_of prev [] = prev
last_of prev (c ∷ cs) = last_of c cs

-- x
pub split_equal-assignment :
    (prev : ℕ) (lhs rhs : List ℕ)
    → All IsNotEqual lhs
    → is_compare (last_of prev lhs) ≡ false
    → begins_equal rhs ≡ false
    → split_equal prev (lhs ++ (61 ∷ rhs)) ≡ some (lhs, rhs)
unfolding split_equal
split_equal-assignment prev [] rhs h no_compare no_equal =
    rw (split_equal, no_compare, no_equal) refl
split_equal-assignment prev (c ∷ lhs) rhs (h, hs) no_compare no_equal =
    rw (split_equal, h, split_equal-assignment c lhs rhs hs no_compare no_equal) refl

-- The second character of a == that follows a text without = is taken for an assignment, unless a third =
-- follows: the left side ends with the first character of the ==.
pub split_equal-comparison :
    (prev : ℕ) (lhs rhs : List ℕ)
    → All IsNotEqual lhs
    → begins_equal rhs ≡ false
    → split_equal prev (lhs ++ (61 ∷ 61 ∷ rhs)) ≡ some (lhs ++ (61 ∷ []), rhs)
unfolding split_equal
split_equal-comparison prev [] rhs h no_equal = elim (Bool-cases (is_compare prev)) [
  | inl e ↦ rw (split_equal, e, no_equal) refl
  | inr e ↦ rw (split_equal, e, no_equal) refl
]
split_equal-comparison prev (c ∷ lhs) rhs (h, hs) no_equal =
    rw (split_equal, h, split_equal-comparison c lhs rhs hs no_equal) refl
