-- ===== src/Lineno/Best.antt =====
-- The loop that the lookups of src/lineno.c share: it finds a best candidate.
use macos_c_debugger_arm.Lineno.{choose, best_by}
use macos_c_debugger_arm.Prelude.{
  ◌≡◌, refl, subst, ◌⊎◌, inl, inr, Bool, true, false, ◌&&◌, Option, none, some, List, [], ◌∷◌, All,
  arith, Bool-cases,
}

-- `x` is an element of the list.
pub data Among {A : Type 0} (x : A) : List A → Type 0 where
  here : {xs : List A} → Among x (x ∷ xs)
  later : {y : A} {xs : List A} → Among x xs → Among x (y ∷ xs)

module _ {A : Type 0} (keep : A → Bool) (better : A → A → Bool) where
  -- An element that is kept, and that no other kept one is better than.
  pub record IsBest (b : A) (xs : List A) : Type 0 where
    pub among : Among b xs
    pub kept : keep b ≡ true
    pub unbeaten : All (λ y. keep y ≡ true → better y b ≡ false) xs

  best_by-none :
      (best : Option A) (xs : List A)
      → best_by keep better best xs ≡ none
      → (best ≡ none) × All (λ y. keep y ≡ false) xs
  unfolding best_by choose
  best_by-none best [] h = (h, tt)
  best_by-none none (x ∷ xs) h =
      let rest = best_by-none (choose keep better none x) xs h in
      (refl, (ground (arith, rest.0), rest.1))
  best_by-none (some b) (x ∷ xs) h =
      let rest = best_by-none (choose keep better (some b) x) xs h in ground (arith, rest.0)

  module _ (asym : (x y : A) → better x y ≡ true → better y x ≡ false)
      (trans : (x y z : A) → better x y ≡ false → better y z ≡ false → better x z ≡ false) where
    irreflexive : (x : A) → better x x ≡ false
    irreflexive x = elim (Bool-cases (better x x)) [ inl e ↦ asym x x e | inr e ↦ e ]

    newer :
        (x b : A) (xs : List A)
        → keep x ≡ true
        → (x ≡ b) ⊎ (Among b xs × (keep b ≡ true))
        → Among b (x ∷ xs) × (keep b ≡ true)
    newer x b xs k (inl e) = subst (λ t. Among t (x ∷ xs) × (keep t ≡ true)) e (here, k)
    newer x b xs k (inr found) = (later found.0, found.1)

    older :
        (c b x : A) (xs : List A)
        → (c ≡ b) ⊎ (Among b xs × (keep b ≡ true))
        → (c ≡ b) ⊎ (Among b (x ∷ xs) × (keep b ≡ true))
    older c b x xs (inl e) = inl e
    older c b x xs (inr found) = inr (later found.0, found.1)

    best_by-from :
        (c b : A) (xs : List A)
        → best_by keep better (some c) xs ≡ some b
        → ((c ≡ b) ⊎ (Among b xs × (keep b ≡ true)))
          × All (λ y. keep y ≡ true → better y b ≡ false) xs
          × (better c b ≡ false)
    unfolding best_by choose
    best_by-from c b [] h =
        let same : c ≡ b = ground arith in
        (inl same, tt, subst (λ t. better c t ≡ false) same (irreflexive c))
    best_by-from c b (x ∷ xs) h = elim (Bool-cases (keep x && better x c)) [
      | inl e ↦
          let rest = best_by-from x b xs (rw e at h) in
          let wins : (keep x ≡ true) × (better x c ≡ true) = ground arith in
          (
            inr (newer x b xs wins.0 rest.0),
            (λ k. rest.2, rest.1),
            trans c x b (asym x c wins.1) rest.2,
          )
      | inr e ↦
          let rest = best_by-from c b xs (rw e at h) in
          (older c b x xs rest.0, (λ k. trans x c b (ground (arith, k)) rest.2, rest.1), rest.2)
    ]

    best_by-IsBest : (b : A) (xs : List A) → best_by keep better none xs ≡ some b → IsBest b xs
    unfolding best_by choose
    best_by-IsBest b [] h = cc
    best_by-IsBest b (x ∷ xs) h = elim (Bool-cases (keep x)) [
      | inl e ↦
          let rest = best_by-from x b xs (rw e at h) in
          let found = newer x b xs e rest.0 in
          record { among = found.0; kept = found.1; unbeaten = (λ k. rest.2, rest.1) }
      | inr e ↦
          let rest = best_by-IsBest b xs (rw e at h) in
          record {
            among = later rest.among;
            kept = rest.kept;
            unbeaten = (λ k. ground arith, rest.unbeaten);
          }
    ]

    -- The loop finds a best element that is kept, or there is none that is kept.
    pub best_by_lem :
        (xs : List A)
        → ((b : A) → best_by keep better none xs ≡ some b → IsBest b xs)
          × (best_by keep better none xs ≡ none → All (λ y. keep y ≡ false) xs)
    best_by_lem xs = (λ b h. best_by-IsBest b xs h, λ h. (best_by-none none xs h).1)
