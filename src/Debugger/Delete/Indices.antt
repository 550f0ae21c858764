-- ===== src/Debugger/Delete/Indices.antt =====
-- The indices that `cmd_del` and `cmd_delwatch` of src/debugger.c gather, and their order.
use macos_c_debugger_arm.Debugger.Delete.{
  contains, collect_indices, select_largest, sort_loop, sort_indices,
}
use macos_c_debugger_arm.Prelude.{
  ℕ, zero, suc, ◌≤◌, ◌<◌, ◌≡◌, refl, ap, ◌∙◌, inl, inr, Bool, true, false, ◌||◌, Option, none, some,
  List, [], ◌∷◌, ◌++◌, arith, ◌==◌, ltb, leb, if◌then◌else◌, length, All, Bool-cases,
}

-- Strictly falling, below a bound.
abbrev pub FallsFrom : ℕ → List ℕ → Type 0
FallsFrom bound [] = Unit
FallsFrom bound (i ∷ is) = (i < bound) × FallsFrom i is

-- All different.
abbrev pub IsDistinct : List ℕ → Type 0
IsDistinct [] = Unit
IsDistinct (i ∷ is) = (contains i is ≡ false) × IsDistinct is

-- Sorting keeps the number of elements and which there are.
largest-contains :
    (n x : ℕ) (xs : List ℕ)
    → contains n ((select_largest x xs).0 ∷ (select_largest x xs).1) ≡ contains n (x ∷ xs)
unfolding select_largest contains
largest-contains n x [] = refl
largest-contains n x (y ∷ ys) = ground (arith, largest-contains n (if ltb x y then y else x) ys)

length-select_largest : (x : ℕ) (xs : List ℕ) → length (select_largest x xs).1 ≡ length xs
unfolding select_largest
length-select_largest x [] = refl
length-select_largest x (y ∷ ys) = ap suc (length-select_largest (if ltb x y then y else x) ys)

largest-bounds :
    (x : ℕ) (xs : List ℕ)
    → (x ≤ (select_largest x xs).0) × All (λ y. y ≤ (select_largest x xs).0) (select_largest x xs).1
unfolding select_largest
largest-bounds x [] = omega arith
largest-bounds x (y ∷ ys) = ground (arith, largest-bounds (if ltb x y then y else x) ys)

largest-IsDistinct :
    (x : ℕ) (xs : List ℕ)
    → IsDistinct (x ∷ xs)
    → IsDistinct ((select_largest x xs).0 ∷ (select_largest x xs).1)
unfolding select_largest contains
largest-IsDistinct x [] h = h
largest-IsDistinct x (y ∷ ys) h =
    let big = if ltb x y then y else x in
    let small = if ltb x y then x else y in
    ground (
      arith,
      largest-IsDistinct big ys (ground arith),
      largest-contains small big ys,
      largest-contains (select_largest big ys).0 big ys,
    )

below_largest :
    (m : ℕ) (xs : List ℕ) → All (λ y. y ≤ m) xs → contains m xs ≡ false → All (λ y. y < m) xs
unfolding contains
below_largest m [] h n = tt
below_largest m (x ∷ xs) h n = (ground arith, below_largest m xs h.1 (ground arith))

-- An element of the list satisfies what all do.
pub All-contains : (P : ℕ → Type 0) (n : ℕ) (xs : List ℕ) → All P xs → contains n xs ≡ true → P n
unfolding contains
All-contains P n [] h c = cc
All-contains P n (x ∷ xs) h c = elim (Bool-cases (x == n)) [
  | inl e ↦ let same : x ≡ n = ground arith in rw (← same) h.0
  | inr e ↦ All-contains P n xs h.1 (ground arith)
]

select_largest-lt :
    (bound x : ℕ) (xs : List ℕ) → All (λ y. y < bound) (x ∷ xs) → (select_largest x xs).0 < bound
unfolding select_largest
select_largest-lt bound x [] h = h.0
select_largest-lt bound x (y ∷ ys) h =
    select_largest-lt bound (if ltb x y then y else x) ys (ground arith, h.1.1)

sort_loop-FallsFrom :
    (n bound : ℕ) (xs : List ℕ)
    → length xs ≤ n
    → IsDistinct xs
    → All (λ y. y < bound) xs
    → FallsFrom bound (sort_loop n xs)
unfolding sort_loop
sort_loop-FallsFrom zero bound [] h d b = tt
sort_loop-FallsFrom zero bound (x ∷ xs) h d b = absurd (omega arith)
sort_loop-FallsFrom (suc n) bound [] h d b = tt
sort_loop-FallsFrom (suc n) bound (x ∷ xs) h d b =
    let different = largest-IsDistinct x xs d in
    let largest = (select_largest x xs).0 in
    let rest = (select_largest x xs).1 in
    (
      select_largest-lt bound x xs b,
      sort_loop-FallsFrom n largest rest (omega (arith, length-select_largest x xs)) different.1
          (below_largest largest rest (largest-bounds x xs).1 different.0),
    )

sort_loop-contains :
    (m n : ℕ) (xs : List ℕ) → length xs ≤ n → contains m (sort_loop n xs) ≡ contains m xs
unfolding sort_loop
sort_loop-contains m zero xs h = refl
sort_loop-contains m (suc n) [] h = refl
sort_loop-contains m (suc n) (x ∷ xs) h =
    step
      (sort_loop-contains m n (select_largest x xs).1 (omega (arith, length-select_largest x xs)))
    ∙ largest-contains m x xs
  where
    step :
        contains m (sort_loop n (select_largest x xs).1) ≡ contains m (select_largest x xs).1
        → contains m ((select_largest x xs).0 ∷ sort_loop n (select_largest x xs).1)
          ≡ contains m ((select_largest x xs).0 ∷ (select_largest x xs).1)
    step e = unfold contains in ap (λ t. if (select_largest x xs).0 == m then true else t) e

-- Whether the arguments name the index.
abbrev pub names : ℕ → List (Option ℕ) → Bool
names n [] = false
names n (none ∷ args) = names n args
names n (some i ∷ args) = (i == n) || names n args

contains-append :
    (n i : ℕ) (is : List ℕ) → contains n (is ++ (i ∷ [])) ≡ (contains n is || (i == n))
unfolding contains
contains-append n i [] = ground arith
contains-append n i (j ∷ is) = ground (arith, contains-append n i is)

IsDistinct-append :
    (i : ℕ) (is : List ℕ) → IsDistinct is → contains i is ≡ false → IsDistinct (is ++ (i ∷ []))
unfolding contains
IsDistinct-append i [] d c = (refl, tt)
IsDistinct-append i (j ∷ is) d c =
    ground (arith, contains-append j i is, IsDistinct-append i is d.1)

All-append_one :
    (bound i : ℕ) (is : List ℕ)
    → All (λ y. y < bound) is
    → i < bound
    → All (λ y. y < bound) (is ++ (i ∷ []))
All-append_one bound i [] h lt = (lt, tt)
All-append_one bound i (j ∷ is) h lt = (h.0, All-append_one bound i is h.1 lt)

-- What is gathered: different indices, each in range, and exactly those that the arguments name or that were
-- there before.
pub collect_indices_lem :
    (count : ℕ) (before : List ℕ) (args : List (Option ℕ)) (is : List ℕ)
    → IsDistinct before
    → All (λ y. y < count) before
    → collect_indices count before args ≡ some is
    → IsDistinct is
      × All (λ y. y < count) is
      × ((n : ℕ) → contains n is ≡ (contains n before || names n args))
unfolding collect_indices
collect_indices_lem count before [] is d b h =
    let same : before ≡ is = ground arith in rw (← same) (d, b, λ n. ground arith)
collect_indices_lem count before (none ∷ args) is d b h = cc
collect_indices_lem count before (some i ∷ args) is d b h = elim (Bool-cases (leb count i)) [
  | inl far ↦ cc (rw far at h)
  | inr near ↦ elim (Bool-cases (contains i before)) [
    | inl e ↦
        let ih = collect_indices_lem count before args is d b (rw (near, e) at h) in
        (
          ih.0,
          ih.1,
          λ n. ground (arith, ih.2 n, λ (same : i ≡ n). ap (λ j. contains j before) same),
        )
    | inr e ↦
        let ih =
          collect_indices_lem count (before ++ (i ∷ [])) args is (IsDistinct-append i before d e)
            (All-append_one count i before b (ground arith)) (rw (near, e) at h) in
        (ih.0, ih.1, λ n. ground (arith, ih.2 n, contains-append n i before))
  ]
]

length-FallsFrom : (bound : ℕ) (is : List ℕ) → FallsFrom bound is → length is ≤ bound
length-FallsFrom bound [] h = omega arith
length-FallsFrom bound (i ∷ is) h = omega (arith, length-FallsFrom i is h.1)

length-sort_loop : (n : ℕ) (xs : List ℕ) → length (sort_loop n xs) ≡ length xs
unfolding sort_loop
length-sort_loop zero xs = refl
length-sort_loop (suc n) [] = refl
length-sort_loop (suc n) (x ∷ xs) =
    ap suc (length-sort_loop n (select_largest x xs).1 ∙ length-select_largest x xs)

-- If no argument is refused, the sorted indices fall strictly from the count, they are exactly those that
-- the arguments name, and there are at most as many as entries, so that the array for them is not overrun.
pub sort_indices-collect_indices :
    (count : ℕ) (args : List (Option ℕ)) (is : List ℕ)
    → collect_indices count [] args ≡ some is
    → FallsFrom count (sort_indices is)
      × ((n : ℕ) → contains n (sort_indices is) ≡ names n args)
      × (length is ≤ count)
unfolding sort_indices contains
sort_indices-collect_indices count args is h =
    let gathered = collect_indices_lem count [] args is tt tt h in
    let falls = sort_loop-FallsFrom (length is) count is (omega arith) gathered.0 gathered.1 in
    (
      falls,
      λ n. sort_loop-contains n (length is) is (omega arith) ∙ gathered.2 n,
      omega
          (arith, length-FallsFrom count (sort_indices is) falls, length-sort_loop (length is) is),
    )
