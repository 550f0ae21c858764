-- ===== src/Syms/Lookup.antt =====
-- What `cdbg_syms_lookup_name` of src/syms.c and `lookup_symbol_for_pc` of src/debugger.c find.
use macos_c_debugger_arm.Lineno.{same_text}
use macos_c_debugger_arm.Lineno.Best.{Among, best_by_lem}
use macos_c_debugger_arm.Lineno.Lookup.{All-map, below_asym, below_trans}
use macos_c_debugger_arm.Prelude.{
  ℕ, ◌+◌, ◌-◌, ◌≤◌, ◌≡◌, refl, subst, ap, ◌∙◌, inl, inr, Bool, true, false, ◌&&◌, none, some, List,
  [], ◌∷◌, All, arith, ltb, leb, Bool-cases, Option-cases,
}
use macos_c_debugger_arm.Syms.{
  SymEntry, Syms, link_name, find_name, lookup_name, is_function, syms_runtime_addr, best_symbol,
  lookup_symbol_for_pc, max_symbol_offset,
}

-- `e` is the first entry with the name.
pub data FirstNamed (name : List ℕ) (e : SymEntry) : List SymEntry → Type 0 where
  here : {es : List SymEntry} → same_text e.name name ≡ true → FirstNamed name e (e ∷ es)
  later :
      {other : SymEntry} {es : List SymEntry}
      → same_text other.name name ≡ false
      → FirstNamed name e es
      → FirstNamed name e (other ∷ es)

find_name-FirstNamed :
    (name : List ℕ) (e : SymEntry) (es : List SymEntry)
    → find_name name es ≡ some e
    → FirstNamed name e es
unfolding find_name
find_name-FirstNamed name e [] h = cc
find_name-FirstNamed name e (x ∷ xs) h = elim (Bool-cases (same_text x.name name)) [
  | inl same ↦ subst (λ t. FirstNamed name t (x ∷ xs)) (ground arith) (FirstNamed.here same)
  | inr other ↦ FirstNamed.later other (find_name-FirstNamed name e xs (rw other at h))
]

find_name-none :
    (name : List ℕ) (es : List SymEntry)
    → find_name name es ≡ none
    → All (λ e. same_text e.name name ≡ false) es
unfolding find_name
find_name-none name [] h = tt
find_name-none name (x ∷ xs) h = elim (Bool-cases (same_text x.name name)) [
  | inl same ↦ cc (rw same at h)
  | inr other ↦ (other, find_name-none name xs (rw other at h))
]

-- An entry that is found for a name is the first of the table with the name as the linker has it; if none
-- is found, no entry has that name.
lookup_name_lem :
    (syms : Syms) (name : List ℕ)
    → ((e : SymEntry) → lookup_name syms name ≡ some e → FirstNamed (link_name name) e syms.entries)
      × (lookup_name syms name ≡ none
          → All (λ e. same_text e.name (link_name name) ≡ false) syms.entries)
unfolding lookup_name
lookup_name_lem syms name = (
  λ e h. find_name-FirstNamed (link_name name) e syms.entries h,
  λ h. find_name-none (link_name name) syms.entries h,
)

-- What the loop finds.
BestSymbol : Syms → ℕ → SymEntry → Type 0
BestSymbol syms pc e =
    Among e syms.entries
    × (is_function e ≡ true)
    × (syms_runtime_addr syms e.address ≤ pc)
    × All
        (λ other.
          is_function other ≡ true
          → syms_runtime_addr syms other.address ≤ pc
          → syms_runtime_addr syms other.address ≤ syms_runtime_addr syms e.address)
        syms.entries

best_symbol-BestSymbol :
    (syms : Syms) (pc : ℕ) (e : SymEntry) → best_symbol syms pc ≡ some e → BestSymbol syms pc e
unfolding best_symbol BestSymbol
best_symbol-BestSymbol syms pc e h =
    let at = λ (x : SymEntry). syms_runtime_addr syms x.address in
    let keep = λ (x : SymEntry). is_function x && leb (at x) pc in
    let better = λ (x best : SymEntry). ltb (at best) (at x) in
    let loop =
      best_by_lem keep better (λ x y h'. below_asym at y x h')
        (λ x y z p q. below_trans at z y x q p) syms.entries in
    let best = loop.0 e h in
    let kept = and-both (is_function e) (leb (at e) pc) best.kept in
    (
      best.among,
      kept.0,
      ground (arith, kept.1),
      All-map (λ other unbeaten fn le. ground (arith, unbeaten (both fn (ground arith))))
          syms.entries best.unbeaten,
    )
  where
    and-both : (a b : Bool) → (a && b) ≡ true → (a ≡ true) × (b ≡ true)
    and-both true b h = (refl, h)
    and-both false b h = cc

    both : {a b : Bool} → a ≡ true → b ≡ true → (a && b) ≡ true
    both ha hb = rw (ha, hb) refl

-- A symbol that is found for a program counter is a function of the table that begins at or below it, the
-- offset leads from its address to the program counter and is at most 0x100000, and no function at or
-- below the program counter begins above it.
pub lookup_symbol_for_pc_lem :
    (syms : Syms) (pc offset : ℕ) (e : SymEntry)
    → lookup_symbol_for_pc syms pc ≡ some (e, offset)
    → Among e syms.entries
      × (is_function e ≡ true)
      × (syms_runtime_addr syms e.address + offset ≡ pc)
      × (offset ≤ max_symbol_offset)
      × All
          (λ other.
            is_function other ≡ true
            → syms_runtime_addr syms other.address ≤ pc
            → syms_runtime_addr syms other.address ≤ syms_runtime_addr syms e.address)
          syms.entries
unfolding lookup_symbol_for_pc BestSymbol
lookup_symbol_for_pc_lem syms pc offset e h = elim (Option-cases (best_symbol syms pc)) [
  | inl n ↦ cc (rw (n, lookup_symbol_for_pc) at h)
  | inr (b, s) ↦
      let found = rw (s, lookup_symbol_for_pc) at h in
      let same : b ≡ e = ground arith in
      let best = best_symbol-BestSymbol syms pc e (s ∙ ap some same) in
      let distance : pc - syms_runtime_addr syms b.address ≡ offset = ground arith in
      let near : pc - syms_runtime_addr syms b.address ≤ max_symbol_offset = ground arith in
      let at : syms_runtime_addr syms b.address ≡ syms_runtime_addr syms e.address =
        ap (λ (t : SymEntry). syms_runtime_addr syms t.address) same in
      (best.0, best.1, omega (arith, best.2), omega arith, best.3)
]
