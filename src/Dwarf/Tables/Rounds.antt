-- ===== src/Dwarf/Tables/Rounds.antt =====
-- The loops over the directories and files of version 4 in src/lineno.c have rounds enough.
use macos_c_debugger_arm.Dwarf.{read_uleb128}
use macos_c_debugger_arm.Dwarf.Leaves.{uleb_loop-Within, length-drop}
use macos_c_debugger_arm.Dwarf.Program.{FileName, drop}
use macos_c_debugger_arm.Dwarf.Tables.{
  text_at, after_cstr, skip_data16, directories_v4, parse_file_names_v4,
}
use macos_c_debugger_arm.Prelude.{
  ℕ, zero, suc, ◌≤◌, ◌≡◌, refl, List, [], ◌∷◌, ◌==◌, ltb, length, value, fails, ◌>>=◌, arith, by_if,
  Evaluated,
}

abbrev AtMost : ℕ → List ℕ → Type 0
AtMost n bs = length bs ≤ n

after_cstr-length : (b : ℕ) (bs : List ℕ) → AtMost (length bs) (after_cstr (b ∷ bs))
unfolding after_cstr
after_cstr-length b [] = by_if (AtMost 0) (b == 0) {a = []} {b = []} (omega arith) (omega arith)
after_cstr-length b (c ∷ bs) =
    let rest : length (after_cstr (c ∷ bs)) ≤ length bs = after_cstr-length c bs in
    by_if (AtMost (suc (length bs))) (b == 0) {a = c ∷ bs} {b = after_cstr (c ∷ bs)} (omega arith)
      (omega (arith, rest))

directories_v4-rounds :
    (f g : ℕ) (bs : List ℕ)
    → length bs ≤ f
    → length bs ≤ g
    → directories_v4 f bs ≡ directories_v4 g bs
unfolding directories_v4
directories_v4-rounds f g [] hf hg = refl
directories_v4-rounds zero g (b ∷ bs) hf hg = absurd (omega arith)
directories_v4-rounds (suc f) zero (b ∷ bs) hf hg = absurd (omega arith)
directories_v4-rounds (suc f) (suc g) (b ∷ bs) hf hg =
    let short = after_cstr-length b bs in
    rw
      (directories_v4-rounds f g (after_cstr (b ∷ bs)) (omega (arith, short))
        (omega (arith, short)))
      refl

-- One round over the files, with what the other rounds make of the rest.
abbrev files_round :
    List ℕ
    → ℕ
    → (List ℕ → Evaluated (List FileName × List ℕ))
    → Evaluated (List ℕ)
    → Evaluated (List FileName × List ℕ)
files_round bs dir_index others skipped = skipped >>= λ bs2.
    (text_at bs >>= λ name.
    (others bs2 >>= λ (files, behind).
    value (record { name = name; dir_index = dir_index } ∷ files, behind)))

parse_file_names_v4-rounds :
    (f g : ℕ) (bs : List ℕ)
    → length bs ≤ f
    → length bs ≤ g
    → parse_file_names_v4 f bs ≡ parse_file_names_v4 g bs
unfolding parse_file_names_v4 skip_data16
parse_file_names_v4-rounds f g [] hf hg = refl
parse_file_names_v4-rounds zero g (b ∷ bs) hf hg = absurd (omega arith)
parse_file_names_v4-rounds (suc f) zero (b ∷ bs) hf hg = absurd (omega arith)
parse_file_names_v4-rounds (suc f) (suc g) (b ∷ bs) hf hg =
    let (dir_index, bs1) = read_uleb128 (after_cstr (b ∷ bs)) in
    let short =
      length-drop (length bs) 16 bs1
        (uleb_loop-Within (length bs) 10 0 0 (after_cstr (b ∷ bs)) (after_cstr-length b bs)) in
    let step : files_round (b ∷ bs) dir_index (parse_file_names_v4 f) (value (drop 16 bs1))
        ≡ files_round (b ∷ bs) dir_index (parse_file_names_v4 g) (value (drop 16 bs1)) =
      rw
        (parse_file_names_v4-rounds f g (drop 16 bs1) (omega (arith, short)) (omega (arith, short)))
        refl in
    let same =
      by_if
        (λ r.
          files_round (b ∷ bs) dir_index (parse_file_names_v4 f) r
          ≡ files_round (b ∷ bs) dir_index (parse_file_names_v4 g) r)
        (ltb (length bs1) 16) {a = fails} {b = value (drop 16 bs1)} refl step in
    rw same refl
