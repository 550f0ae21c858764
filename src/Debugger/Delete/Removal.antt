-- ===== src/Debugger/Delete/Removal.antt =====
-- `cmd_del` and `cmd_delwatch` of src/debugger.c: which entries are left in the table.
use macos_c_debugger_arm.Debugger.Delete.{
  Selection, nothing, all, numbers, contains, collect_indices, sort_indices, delete_each,
  delete_listed, delete_all, delete_selected,
}
use macos_c_debugger_arm.Debugger.Delete.Indices.{FallsFrom, names, sort_indices-collect_indices}
use macos_c_debugger_arm.Debugger.Delete.Without.{
  without, without_same, remove_each, remove_each-without,
}
use macos_c_debugger_arm.Debugger.State.{Cdbg, Result}
use macos_c_debugger_arm.Kernel.{Kernel}
use macos_c_debugger_arm.Prelude.{
  ℕ, zero, suc, ◌+◌, ◌-◌, ◌≤◌, ◌<◌, ◌≡◌, refl, sym, ap, ◌∙◌, inl, inr, Bool, true, Option, List, [],
  ◌∷◌, arith, ◌==◌, length, length-take, take, set, Bool-cases, Option-cases,
}
use macos_c_debugger_arm.Table.{Table, live}
use macos_c_debugger_arm.Table.Remove.{remove_at, length-remove_at}

-- The count is within the array.
abbrev pub Fits : {A : Type 0} → Table A → Type 0
Fits t = t.count ≤ length t.entries

FallsFrom-le : (b b' : ℕ) (is : List ℕ) → b ≤ b' → FallsFrom b is → FallsFrom b' is
FallsFrom-le b b' [] le h = tt
FallsFrom-le b b' (i ∷ is) le h = (omega (arith, h.0), h.1)

module _ {A : Type 0} where
  -- What is stored at the place that goes makes no difference.
  pub remove_at-set :
      (i n : ℕ) (xs : List A) (v : A) → remove_at i (take n (set xs i v)) ≡ remove_at i (take n xs)
  unfolding remove_at
  remove_at-set i zero xs v = refl
  remove_at-set i (suc n) [] v = refl
  remove_at-set zero (suc n) (x ∷ xs) v = refl
  remove_at-set (suc i) (suc n) (x ∷ xs) v = ap (λ ys. x ∷ ys) (remove_at-set i n xs v)

  -- What a selection leaves of the entries in use.
  abbrev pub left_by : Selection → List A → List A
  left_by nothing xs = xs
  left_by all xs = []
  left_by (numbers args) xs = without (λ n. names n args) 0 xs

  live-empty : (t : Table A) → t.count ≡ 0 → live t ≡ []
  live-empty t e = ap (λ n. take n t.entries) e

  pub left_by-empty : (s : Selection) (t : Table A) → t.count ≡ 0 → live t ≡ left_by s (live t)
  unfolding without
  left_by-empty nothing t e = refl
  left_by-empty all t e = live-empty t e
  left_by-empty (numbers args) t e =
      live-empty t e ∙ ap (without (λ n. names n args) 0) (sym (live-empty t e))

  length-live : (t : Table A) → Fits t → length (live t) ≡ t.count
  length-live t fits = omega (arith, length-take t.count t.entries)

module _ (k : Kernel) {A : Type 0} (delete_at : Cdbg → k.World → ℕ → Result k Bool)
    (table : Cdbg → Table A) where
  -- A deletion that succeeds removes the entry at the index.
  abbrev pub Removes : Type 0
  Removes =
      (d : Cdbg) (w : k.World) (i : ℕ)
      → Fits (table d)
      → i < (table d).count
      → (delete_at d w i).2 ≡ true
      → Fits (table (delete_at d w i).0)
        × (live (table (delete_at d w i).0) ≡ remove_at i (live (table d)))

  module _ (removes : Removes) where
    count_falls :
        (d : Cdbg) (w : k.World) (i : ℕ)
        → Fits (table d)
        → i < (table d).count
        → (delete_at d w i).2 ≡ true
        → (table (delete_at d w i).0).count + 1 ≡ (table d).count
    count_falls d w i fits lt done =
        let step = removes d w i fits lt done in
        omega (
          arith,
          length-live (table d) fits,
          length-live (table (delete_at d w i).0) step.0,
          ap (λ (xs : List A). length xs) step.1,
          length-remove_at i (live (table d)) (omega (arith, length-live (table d) fits)),
        )

    delete_each-live :
        (is : List ℕ) (d : Cdbg) (w : k.World)
        → Fits (table d)
        → FallsFrom (table d).count is
        → (delete_each k delete_at d w is).2 ≡ true
        → live (table (delete_each k delete_at d w is).0) ≡ remove_each is (live (table d))
    unfolding delete_each remove_each
    delete_each-live [] d w fits falls done = refl
    delete_each-live (i ∷ is) d w fits falls done = elim (Bool-cases (delete_at d w i).2) [
      | inr e ↦ cc (rw (delete_each, e) at done)
      | inl e ↦
          let step = removes d w i fits falls.0 e in
          let count = count_falls d w i fits falls.0 e in
          let after = delete_at d w i in
          let rest =
            delete_each-live is after.0 after.1 step.0
              (FallsFrom-le i (table after.0).count is (omega (arith, falls.0)) falls.1)
              (rw (delete_each, e) at done) in
          rw (delete_each, e) (rest ∙ ap (remove_each is) step.1)
    ]

    delete_all-live :
        (rounds : ℕ) (d : Cdbg) (w : k.World)
        → Fits (table d)
        → (table d).count ≤ rounds
        → (delete_all k delete_at (λ d'. (table d').count) rounds d w).2 ≡ true
        → (table (delete_all k delete_at (λ d'. (table d').count) rounds d w).0).count ≡ 0
    unfolding delete_all
    delete_all-live zero d w fits le done = omega arith
    delete_all-live (suc rounds) d w fits le done = elim (Bool-cases ((table d).count == 0)) [
      | inl none_left ↦ rw (delete_all, none_left) (ground arith)
      | inr some_left ↦
          let last = (table d).count - 1 in
          let after = delete_at d w last in
          let lt : last < (table d).count = ground arith in
          elim (Bool-cases after.2) [
            | inr e ↦ cc (rw (delete_all, some_left, e) at done)
            | inl e ↦
                let step = removes d w last fits lt e in
                let count = count_falls d w last fits lt e in
                rw (delete_all, some_left, e)
                  (delete_all-live rounds after.0 after.1 step.0 (omega arith)
                    (rw (delete_all, some_left, e) at done))
          ]
    ]

    delete_listed-live :
        (d : Cdbg) (w : k.World) (args : List (Option ℕ))
        → Fits (table d)
        → (delete_listed k delete_at (table d).count d w args).2 ≡ true
        → live (table (delete_listed k delete_at (table d).count d w args).0)
          ≡ without (λ n. names n args) 0 (live (table d))
    unfolding delete_listed
    delete_listed-live d w args fits done =
        elim (Option-cases (collect_indices (table d).count [] args)) [
          | inl e ↦ cc (rw (e, delete_listed) at done)
          | inr (is, e) ↦
              let sorted = sort_indices is in
              let facts = sort_indices-collect_indices (table d).count args is e in
              rw (e, delete_listed)
                (delete_each-live sorted d w fits facts.0 (rw (e, delete_listed) at done)
                  ∙ remove_each-without (table d).count sorted (live (table d)) facts.0
                  ∙ without_same (λ n. contains n sorted) (λ n. names n args) 0 (live (table d))
                      facts.1)
        ]

    pub delete_selected-live :
        (d : Cdbg) (w : k.World) (s : Selection)
        → Fits (table d)
        → (delete_selected k delete_at (λ d'. (table d').count) d w s).2 ≡ true
        → live (table (delete_selected k delete_at (λ d'. (table d').count) d w s).0)
          ≡ left_by s (live (table d))
    unfolding delete_selected
    delete_selected-live d w nothing fits done = cc
    delete_selected-live d w all fits done =
        let after = (delete_all k delete_at (λ d'. (table d').count) (table d).count d w).0 in
        live-empty (table after) (delete_all-live (table d).count d w fits (omega arith) done)
    delete_selected-live d w (numbers args) fits done = delete_listed-live d w args fits done
