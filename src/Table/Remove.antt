-- ===== src/Table/Remove.antt =====
-- Closing the gap in a table is the removal of one element from the list of the entries in use.
use macos_c_debugger_arm.Prelude.{
  ℕ, zero, suc, ◌+◌, ◌-◌, ◌≤◌, ◌<◌, ◌≡◌, refl, ap, ◌∙◌, List, [], ◌∷◌, length, length-set,
  length-take, get_or, get_or-set_self, get_or-set_ne, get_or-take, get_or_ext, set, take, arith,
  ltb, if◌then◌else◌,
}
use macos_c_debugger_arm.Table.{Table, live, shift_down, remove_entry}

module _ {A : Type 0} where
  -- The list without its element at `i`.
  unfoldable pub remove_at : ℕ → List A → List A
  remove_at i [] = []
  remove_at zero (x ∷ xs) = xs
  remove_at (suc i) (x ∷ xs) = x ∷ remove_at i xs

  pub length-remove_at :
      (i : ℕ) (xs : List A) → i < length xs → length (remove_at i xs) + 1 ≡ length xs
  unfolding remove_at
  length-remove_at i [] h = elim h [ ]
  length-remove_at zero (x ∷ xs) h = omega arith
  length-remove_at (suc i) (x ∷ xs) h = omega (arith, length-remove_at i xs (omega arith))

  get_or-remove_at :
      (d : A) (i j : ℕ) (xs : List A)
      → get_or (remove_at i xs) j d ≡ (if ltb j i then get_or xs j d else get_or xs (suc j) d)
  unfolding remove_at
  get_or-remove_at d i j [] = ground arith
  get_or-remove_at d zero j (x ∷ xs) = ground arith
  get_or-remove_at d (suc i) zero (x ∷ xs) = ground arith
  get_or-remove_at d (suc i) (suc j) (x ∷ xs) = ground (arith, get_or-remove_at d i j xs)

  length-shift_down : (d : A) (n i : ℕ) (xs : List A) → length (shift_down d n i xs) ≡ length xs
  unfolding shift_down
  length-shift_down d zero i xs = refl
  length-shift_down d (suc n) i xs =
      length-shift_down d n (i + 1) (set xs (i - 1) (get_or xs i d))
      ∙ length-set xs (i - 1) (get_or xs i d)

  -- Below the gap nothing moves; from it on, each place has the next one's entry.
  shift_down_lem :
      (d : A) (n i j : ℕ) (xs : List A)
      → 0 < i
      → i + n ≤ length xs
      → j + 1 < i + n
      → get_or (shift_down d n i xs) j d
        ≡ (if ltb (j + 1) i then get_or xs j d else get_or xs (suc j) d)
  unfolding shift_down
  shift_down_lem d zero i j xs pos fits below = ground arith
  shift_down_lem d (suc n) i j xs pos fits below =
      let v = get_or xs i d in
      let later =
        shift_down_lem d n (i + 1) j (set xs (i - 1) v) (omega arith)
          (omega (arith, length-set xs (i - 1) v)) (omega arith) in
      ground (
        arith,
        later,
        get_or-set_self xs (i - 1) v d (omega arith),
        get_or-set_ne xs (i - 1) j v d,
        get_or-set_ne xs (i - 1) (suc j) v d,
        λ (e : suc j ≡ i). ap (λ t. get_or xs t d) e,
      )

  -- For an index below the count and a count within the array, closing the gap removes exactly the element
  -- at the index from the list of the entries in use.
  pub remove_entry-live :
      (d : A) (t : Table A) (i : ℕ)
      → i < t.count
      → t.count ≤ length t.entries
      → live (remove_entry d t i) ≡ remove_at i (live t)
  unfolding remove_entry
  remove_entry-live d t i within fits =
      let n = t.count - (i + 1) in
      let shifted = shift_down d n (i + 1) t.entries in
      let cleared = set shifted (t.count - 1) d in
      let sizes = length-set shifted (t.count - 1) d ∙ length-shift_down d n (i + 1) t.entries in
      get_or_ext d (take (t.count - 1) cleared) (remove_at i (take t.count t.entries))
        (omega (
          arith,
          sizes,
          length-take (t.count - 1) cleared,
          length-take t.count t.entries,
          length-remove_at i (take t.count t.entries)
              (omega (arith, length-take t.count t.entries)),
        ))
        (λ j h.
          let low : j < t.count - 1 = omega (arith, length-take (t.count - 1) cleared) in
          get_or-take (t.count - 1) j cleared d low
          ∙ get_or-set_ne shifted (t.count - 1) j d d (λ e. absurd (omega arith))
          ∙ ground (
            arith,
            shift_down_lem d n (i + 1) j t.entries (omega arith) (omega arith) (omega arith),
            get_or-remove_at d i j (take t.count t.entries),
            get_or-take t.count j t.entries d (omega arith),
            get_or-take t.count (suc j) t.entries d (omega arith),
          ))

  pub length-remove_entry :
      (d : A) (t : Table A) (i : ℕ) → length (remove_entry d t i).entries ≡ length t.entries
  unfolding remove_entry
  length-remove_entry d t i =
      length-set (shift_down d (t.count - (i + 1)) (i + 1) t.entries) (t.count - 1) d
      ∙ length-shift_down d (t.count - (i + 1)) (i + 1) t.entries
