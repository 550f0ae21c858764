-- ===== src/Lineno/Unique.antt =====
-- `cdbg_lineno_lookup_line_unique` of src/lineno.c.
use macos_c_debugger_arm.Lineno.{
  LineEntry, Lineno, same_text, unique_loop, unique_start, lookup_line_unique,
}
use macos_c_debugger_arm.Lineno.Best.{Among, here, later}
use macos_c_debugger_arm.Prelude.{
  ℕ, ◌≤◌, ◌≡◌, ◌≢◌, refl, subst, ◌⊎◌, inl, inr, true, false, none, some, List, [], ◌∷◌, All, arith,
  ◌==◌, ltb, if◌then◌else◌, Bool-cases,
}

-- The entries of the line are all in the one file, and the entry has the lowest address of them.
pub record IsUnique (line : ℕ) (e : LineEntry) (es : List LineEntry) : Type 0 where
  pub among : Among e es
  pub line_of : e.line ≡ line
  pub file : List ℕ
  pub in_file : All (λ other. other.line ≡ line → same_text file other.file ≡ true) es
  pub lowest : All (λ other. other.line ≡ line → e.address ≤ other.address) es

-- Two entries of the line are in different files.
pub record IsAmbiguous (line : ℕ) (es : List LineEntry) : Type 0 where
  pub first : LineEntry
  pub second : LineEntry
  pub first_among : Among first es
  pub second_among : Among second es
  pub first_line : first.line ≡ line
  pub second_line : second.line ≡ line
  pub differ : same_text first.file second.file ≡ false

same_text_self : (t : List ℕ) → same_text t t ≡ true
unfolding same_text
same_text_self [] = refl
same_text_self (c ∷ cs) = ground (arith, same_text_self cs)

-- What the loop has found, from an entry `m` on.
Found : ℕ → List ℕ → LineEntry → LineEntry → List LineEntry → Type 0
Found line file m e es =
    ((m ≡ e) ⊎ (Among e es × (e.line ≡ line)))
    × All (λ other. other.line ≡ line → same_text file other.file ≡ true) es
    × All (λ other. other.line ≡ line → e.address ≤ other.address) es
    × (e.address ≤ m.address)

unique_loop-Found :
    (line : ℕ) (file : List ℕ) (m e : LineEntry) (es : List LineEntry)
    → unique_loop line file m es ≡ some e
    → Found line file m e es
unfolding unique_loop Found
unique_loop-Found line file m e [] h =
    let same : m ≡ e = ground arith in
    (inl same, tt, tt, subst (λ (t : LineEntry). t.address ≤ m.address) same (omega arith))
unique_loop-Found line file m e (x ∷ xs) h = elim (Bool-cases (x.line == line)) [
  | inr off ↦
      let rest = unique_loop-Found line file m e xs (rw off at h) in
      (widen rest.0, (λ on. ground arith, rest.1), (λ on. ground arith, rest.2), rest.3)
  | inl on ↦ elim (Bool-cases (same_text file x.file)) [
    | inr other ↦ cc (rw (on, other) at h)
    | inl same ↦ elim (Bool-cases (ltb x.address m.address)) [
      | inl lower ↦
          let rest = unique_loop-Found line file x e xs (rw (on, same, lower) at h) in
          (
            inr (newer (ground arith) rest.0),
            (λ on'. same, rest.1),
            (λ on'. rest.3, rest.2),
            ground (arith, rest.3),
          )
      | inr higher ↦
          let rest = unique_loop-Found line file m e xs (rw (on, same, higher) at h) in
          (widen rest.0, (λ on'. same, rest.1), (λ on'. ground (arith, rest.3), rest.2), rest.3)
    ]
  ]
]
  where
    widen :
        (m ≡ e) ⊎ (Among e xs × (e.line ≡ line)) → (m ≡ e) ⊎ (Among e (x ∷ xs) × (e.line ≡ line))
    widen (inl same) = inl same
    widen (inr found) = inr (later found.0, found.1)

    newer :
        x.line ≡ line
        → (x ≡ e) ⊎ (Among e xs × (e.line ≡ line))
        → Among e (x ∷ xs) × (e.line ≡ line)
    newer on (inl same) =
        subst (λ (t : LineEntry). Among t (x ∷ xs) × (t.line ≡ line)) same (here, on)
    newer on (inr found) = (later found.0, found.1)

unique_loop-none :
    (line : ℕ) (file : List ℕ) (m : LineEntry) (es : List LineEntry)
    → unique_loop line file m es ≡ none
    → (other : LineEntry) × Among other es
      × (other.line ≡ line)
      × (same_text file other.file ≡ false)
unfolding unique_loop
unique_loop-none line file m [] h = cc
unique_loop-none line file m (x ∷ xs) h = elim (Bool-cases (x.line == line)) [
  | inr off ↦
      let rest = unique_loop-none line file m xs (rw off at h) in
      (rest.0, later rest.1, rest.2, rest.3)
  | inl on ↦ elim (Bool-cases (same_text file x.file)) [
    | inr other ↦ (x, here, ground arith, other)
    | inl same ↦
        let rest =
          unique_loop-none line file (if ltb x.address m.address then x else m) xs
            (rw (on, same) at h) in
        (rest.0, later rest.1, rest.2, rest.3)
  ]
]

unique_start-IsUnique :
    (line : ℕ) (e : LineEntry) (es : List LineEntry)
    → unique_start line es ≡ some e
    → IsUnique line e es
unfolding unique_start Found
unique_start-IsUnique line e [] h = cc
unique_start-IsUnique line e (x ∷ xs) h = elim (Bool-cases (x.line == line)) [
  | inr off ↦
      let rest = unique_start-IsUnique line e xs (rw off at h) in
      record {
        among = later rest.among;
        line_of = rest.line_of;
        file = rest.file;
        in_file = (λ on. ground arith, rest.in_file);
        lowest = (λ on. ground arith, rest.lowest);
      }
  | inl on ↦
      let found = unique_loop-Found line x.file x e xs (rw on at h) in
      let placed = start found.0 (ground arith) in
      record {
        among = placed.0;
        line_of = placed.1;
        file = x.file;
        in_file = (λ on'. same_text_self x.file, found.1);
        lowest = (λ on'. found.3, found.2);
      }
]
  where
    start :
        (x ≡ e) ⊎ (Among e xs × (e.line ≡ line))
        → x.line ≡ line
        → Among e (x ∷ xs) × (e.line ≡ line)
    start (inl same) on =
        subst (λ (t : LineEntry). Among t (x ∷ xs) × (t.line ≡ line)) same (here, on)
    start (inr found) on = (later found.0, found.1)

unique_start-none :
    (line : ℕ) (es : List LineEntry)
    → unique_start line es ≡ none
    → All (λ other. other.line ≢ line) es ⊎ IsAmbiguous line es
unfolding unique_start
unique_start-none line [] h = inl tt
unique_start-none line (x ∷ xs) h = elim (Bool-cases (x.line == line)) [
  | inr off ↦ elim (unique_start-none line xs (rw off at h)) [
    | inl nowhere ↦ inl (λ on. ground arith, nowhere)
    | inr twice ↦ inr (record {
      first = twice.first;
      second = twice.second;
      first_among = later twice.first_among;
      second_among = later twice.second_among;
      first_line = twice.first_line;
      second_line = twice.second_line;
      differ = twice.differ;
    })
  ]
  | inl on ↦
      let other = unique_loop-none line x.file x xs (rw on at h) in
      inr (record {
        first = x;
        second = other.0;
        first_among = here;
        second_among = later other.1;
        first_line = ground arith;
        second_line = other.2;
        differ = other.3;
      })
]

-- An entry that is found for a line is one of the table, has the line, all entries of the line are in one
-- file, and none of them has a lower address; if none is found, no entry has the line, or two that have it
-- are in different files.
pub lookup_line_unique_lem :
    (ln : Lineno) (line : ℕ)
    → ((e : LineEntry) → lookup_line_unique ln line ≡ some e → IsUnique line e ln.entries)
      × (lookup_line_unique ln line ≡ none
          → All (λ other. other.line ≢ line) ln.entries ⊎ IsAmbiguous line ln.entries)
unfolding lookup_line_unique
lookup_line_unique_lem ln line =
    (λ e h. unique_start-IsUnique line e ln.entries h, λ h. unique_start-none line ln.entries h)
