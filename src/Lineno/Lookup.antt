-- ===== src/Lineno/Lookup.antt =====
-- What the lookups of src/lineno.c find.
use macos_c_debugger_arm.Lineno.{
  LineEntry, Lineno, runtime_addr, file_matches, same_text, lookup_pc, lookup_line,
  lookup_next_line_after_pc,
}
use macos_c_debugger_arm.Lineno.Best.{Among, best_by_lem}
use macos_c_debugger_arm.Prelude.{
  ℕ, ◌≤◌, ◌<◌, ◌≡◌, ◌≢◌, refl, true, false, not, ◌&&◌, none, some, List, [], ◌∷◌, All, arith, ◌==◌,
  ltb, leb,
}

module _ {A : Type 0} where
  pub All-map : {P Q : A → Type 0} → ((x : A) → P x → Q x) → (xs : List A) → All P xs → All Q xs
  All-map f [] h = tt
  All-map f (x ∷ xs) h = (f x h.0, All-map f xs h.1)

  -- By a number of the elements, smaller or larger is better.
  pub below_asym : (f : A → ℕ) (x y : A) → ltb (f x) (f y) ≡ true → ltb (f y) (f x) ≡ false
  below_asym f x y h = ground arith

  pub below_trans :
      (f : A → ℕ) (x y z : A)
      → ltb (f x) (f y) ≡ false
      → ltb (f y) (f z) ≡ false
      → ltb (f x) (f z) ≡ false
  below_trans f x y z h h' = ground arith

module _ (ln : Lineno) where
  -- Where an entry is in the process.
  abbrev pub at : LineEntry → ℕ
  at e = runtime_addr ln e.address

  -- An entry that is found for a program counter is one of the table, is not above it in the process, and
  -- no entry that is not above it is higher; if none is found, every entry is above it.
  pub lookup_pc_lem :
      (pc : ℕ)
      → ((e : LineEntry)
          → lookup_pc ln pc ≡ some e
          → Among e ln.entries
            × (at e ≤ pc)
            × All (λ other. at other ≤ pc → at other ≤ at e) ln.entries)
        × (lookup_pc ln pc ≡ none → All (λ other. pc < at other) ln.entries)
  unfolding lookup_pc
  lookup_pc_lem pc =
      let keep = λ (e : LineEntry). leb (at e) pc in
      let better = λ (e best : LineEntry). ltb (at best) (at e) in
      let loop =
        best_by_lem keep better (λ x y h. below_asym at y x h)
          (λ x y z h h'. below_trans at z y x h' h) ln.entries in
      (
        λ e h.
            let best = loop.0 e h in
            (
              best.among,
              (let kept = best.kept in ground arith),
              All-map (λ other unbeaten le. ground (arith, unbeaten)) ln.entries best.unbeaten,
            ),
        λ h. All-map (λ other out. ground arith) ln.entries (loop.1 h),
      )

  -- An entry that is found for a file and a line is one of the table, has the line and matches the file,
  -- and no other such entry has a lower address; if none is found, there is no such entry.
  lookup_line_lem :
      (filter : List ℕ) (line : ℕ)
      → ((e : LineEntry)
          → lookup_line ln filter line ≡ some e
          → Among e ln.entries
            × (e.line ≡ line)
            × (file_matches e.file filter ≡ true)
            × All
                (λ other.
                  other.line ≡ line
                  → file_matches other.file filter ≡ true
                  → e.address ≤ other.address)
                ln.entries)
        × (lookup_line ln filter line ≡ none
            → All (λ other. other.line ≡ line → file_matches other.file filter ≡ false) ln.entries)
  unfolding lookup_line
  lookup_line_lem filter line =
      let keep = λ (e : LineEntry). e.line == line && file_matches e.file filter in
      let better = λ (e best : LineEntry). ltb e.address best.address in
      let address = λ (e : LineEntry). e.address in
      let loop = best_by_lem keep better (below_asym address) (below_trans address) ln.entries in
      (
        λ e h.
            let best = loop.0 e h in
            let kept = best.kept in
            (
              best.among,
              ground arith,
              ground arith,
              All-map (λ other unbeaten same matches. ground (arith, unbeaten)) ln.entries
                  best.unbeaten,
            ),
        λ h. All-map (λ other out same. ground arith) ln.entries (loop.1 h),
      )

  -- If the program counter has an entry, a next one that is found is one of the table, is above the
  -- program counter in the process, is in the same file and has another line, and no other such entry has
  -- a lower address.
  pub lookup_next_line_after_pc_lem :
      (pc : ℕ) (current e : LineEntry)
      → lookup_pc ln pc ≡ some current
      → lookup_next_line_after_pc ln pc ≡ some e
      → Among e ln.entries
        × (pc < at e)
        × (same_text e.file current.file ≡ true)
        × (e.line ≢ current.line)
        × All
            (λ other.
              pc < at other
              → same_text other.file current.file ≡ true
              → other.line ≢ current.line
              → e.address ≤ other.address)
            ln.entries
  unfolding lookup_next_line_after_pc
  lookup_next_line_after_pc_lem pc current e now h =
      let keep = λ (e : LineEntry).
        not (leb (at e) pc) && (same_text e.file current.file && not (e.line == current.line)) in
      let better = λ (e best : LineEntry). ltb e.address best.address in
      let address = λ (e : LineEntry). e.address in
      let loop = best_by_lem keep better (below_asym address) (below_trans address) ln.entries in
      let best = loop.0 e (rw (now, lookup_next_line_after_pc) at h) in
      let kept = best.kept in
      (
        best.among,
        ground arith,
        ground arith,
        ground arith,
        All-map (λ other unbeaten after same ne. ground (arith, unbeaten)) ln.entries best.unbeaten,
      )

  -- If the program counter has an entry and none is found behind it, those of its file that are above the
  -- program counter have its line.
  pub lookup_next_line_after_pc-none :
      (pc : ℕ) (current : LineEntry)
      → lookup_pc ln pc ≡ some current
      → lookup_next_line_after_pc ln pc ≡ none
      → All
          (λ other.
            pc < at other → same_text other.file current.file ≡ true → other.line ≡ current.line)
          ln.entries
  unfolding lookup_next_line_after_pc
  lookup_next_line_after_pc-none pc current now h =
      let keep = λ (e : LineEntry).
        not (leb (at e) pc) && (same_text e.file current.file && not (e.line == current.line)) in
      let better = λ (e best : LineEntry). ltb e.address best.address in
      let address = λ (e : LineEntry). e.address in
      let loop = best_by_lem keep better (below_asym address) (below_trans address) ln.entries in
      All-map (λ other out after same. ground (arith, out)) ln.entries
        (loop.1 (rw (now, lookup_next_line_after_pc) at h))

  pub lookup_next_line_after_pc_nowhere :
      (pc : ℕ) → lookup_pc ln pc ≡ none → lookup_next_line_after_pc ln pc ≡ none
  unfolding lookup_next_line_after_pc
  lookup_next_line_after_pc_nowhere pc h = rw (lookup_next_line_after_pc, h) refl
