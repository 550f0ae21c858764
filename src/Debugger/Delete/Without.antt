-- ===== src/Debugger/Delete/Without.antt =====
-- Removing elements from a list one by one, by indices that fall, and all at once, by a test of the number.
-- It is for the loops of `cmd_del` and `cmd_delwatch` of src/debugger.c.
use macos_c_debugger_arm.Debugger.Delete.{contains}
use macos_c_debugger_arm.Debugger.Delete.Indices.{FallsFrom}
use macos_c_debugger_arm.Prelude.{
  ℕ, zero, suc, ◌+◌, ◌≤◌, ◌≡◌, refl, sym, ◌∙◌, Bool, true, false, List, [], ◌∷◌, arith, ◌==◌,
  if◌then◌else◌,
}
use macos_c_debugger_arm.Table.Remove.{remove_at}

FallsFrom-contains :
    (bound : ℕ) (is : List ℕ) (n : ℕ) → FallsFrom bound is → bound ≤ n → contains n is ≡ false
unfolding contains
FallsFrom-contains bound [] n h le = refl
FallsFrom-contains bound (i ∷ is) n h le =
    ground (arith, h.0, FallsFrom-contains i is n h.1 (omega arith))

module _ {A : Type 0} where
  -- The list, numbered from `p`, without the elements whose number the test holds of.
  unfoldable pub without : (ℕ → Bool) → ℕ → List A → List A
  without gone p [] = []
  without gone p (x ∷ xs) = let rest = without gone (p + 1) xs in if gone p then rest else x ∷ rest

  pub without_same :
      (f g : ℕ → Bool) (p : ℕ) (xs : List A)
      → ((n : ℕ) → f n ≡ g n)
      → without f p xs ≡ without g p xs
  unfolding without
  without_same f g p [] e = refl
  without_same f g p (x ∷ xs) e = ground (arith, e p, without_same f g (p + 1) xs e)

  without-none :
      (f : ℕ → Bool) (p : ℕ) (xs : List A) → ((n : ℕ) → p ≤ n → f n ≡ false) → without f p xs ≡ xs
  unfolding without
  without-none f p [] e = refl
  without-none f p (x ∷ xs) e =
      ground (arith, e p (omega arith), without-none f (p + 1) xs (λ n h. e n (omega arith)))

  -- One removal by hand, and the rest by the test, where the rest stands before it.
  without-remove_at :
      (f g : ℕ → Bool) (p j : ℕ) (xs : List A)
      → ((n : ℕ) → p + j ≤ n → f n ≡ false)
      → ((n : ℕ) → g n ≡ (if p + j == n then true else f n))
      → without f p (remove_at j xs) ≡ without g p xs
  unfolding without remove_at
  without-remove_at f g p j [] e same = refl
  without-remove_at f g p zero (x ∷ xs) e same =
      let here : g p ≡ true = ground (arith, same p) in
      let later : (n : ℕ) → p + 1 ≤ n → g n ≡ false =
        λ n h. ground (arith, same n, e n (omega arith)) in
      ground
        (arith, without-none f p xs (λ n h. e n (omega arith)), without-none g (p + 1) xs later)
  without-remove_at f g p (suc j) (x ∷ xs) e same =
      let here : g p ≡ f p = ground (arith, same p) in
      let next : (n : ℕ) → g n ≡ (if p + 1 + j == n then true else f n) =
        λ n. ground (arith, same n) in
      ground (arith, without-remove_at f g (p + 1) j xs (λ n h. e n (omega arith)) next)

  -- Removal one by one.
  unfoldable pub remove_each : List ℕ → List A → List A
  unfolding remove_at
  remove_each [] xs = xs
  remove_each (i ∷ is) xs = remove_each is (remove_at i xs)

  -- By falling indices no removal moves an element that is still to be removed.
  pub remove_each-without :
      (bound : ℕ) (is : List ℕ) (xs : List A)
      → FallsFrom bound is
      → remove_each is xs ≡ without (λ n. contains n is) 0 xs
  unfolding remove_each contains
  remove_each-without bound [] xs h = sym (without-none (λ n. false) 0 xs (λ n le. refl))
  remove_each-without bound (i ∷ is) xs h =
      remove_each-without i is (remove_at i xs) h.1
      ∙ without-remove_at (λ n. contains n is) (λ n. contains n (i ∷ is)) 0 i xs
          (λ n le. FallsFrom-contains i is n h.1 (omega arith)) (λ n. ground arith)
