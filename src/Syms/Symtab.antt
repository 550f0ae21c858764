-- ===== src/Syms/Symtab.antt =====
-- The entries of the symbol table of a file, in `syms_load_macho` of src/syms.c, one after the other.
use macos_c_debugger_arm.Dwarf.Program.{drop}
use macos_c_debugger_arm.Dwarf.Tables.{text_at}
use macos_c_debugger_arm.Dwarf.Units.Ends.{drop-append}
use macos_c_debugger_arm.Macho.Commands.{part, field-append, joined}
use macos_c_debugger_arm.Prelude.{
  ℕ, zero, suc, ◌≤◌, ◌≡◌, refl, subst, not, List, [], ◌∷◌, ◌++◌, ◌==◌, leb, if◌then◌else◌, length,
  bit_and, value, All, arith, inl, inr, Bool-cases,
}
use macos_c_debugger_arm.Syms.{Syms, nlist_type_char, syms_push}
use macos_c_debugger_arm.Syms.Load.{symbols_loop}

-- A text up to its 0.
abbrev pub until_0 : List ℕ → List ℕ
until_0 [] = []
until_0 (b ∷ bs) = let rest = b ∷ until_0 bs in if b == 0 then [] else rest

text_at-until_0 :
    (k : ℕ) (table rest : List ℕ)
    → k ≤ length table
    → text_at (drop k (table ++ (0 ∷ rest))) ≡ value (until_0 (drop k (table ++ (0 ∷ rest))))
unfolding text_at drop
text_at-until_0 zero [] rest h = refl
text_at-until_0 (suc k) [] rest h = absurd (omega arith)
text_at-until_0 (suc k) (b ∷ table) rest h = text_at-until_0 k table rest (omega arith)
text_at-until_0 zero (b ∷ table) rest h = elim (Bool-cases (b == 0)) [
  | inl e ↦ rw e refl
  | inr e ↦ rw (e, text_at-until_0 zero table rest (omega arith)) refl
]

-- What an entry of 16 bytes adds to the table: nothing for a debugging entry, or for a name outside of the names.
abbrev pub push_symbol : ℕ → List ℕ → Syms → List ℕ → Syms
push_symbol strsize strtab syms c =
    if not (bit_and (part 1 4 c) 0xe0 == 0)
    then syms
    else if leb strsize (part 4 0 c)
    then syms
    else syms_push syms (part 8 8 c) (nlist_type_char (part 1 4 c))
        (until_0 (drop (part 4 0 c) strtab))

abbrev pub symbols_of : ℕ → List ℕ → List (List ℕ) → Syms → Syms
symbols_of strsize strtab [] syms = syms
symbols_of strsize strtab (c ∷ cs) syms =
    symbols_of strsize strtab cs (push_symbol strsize strtab syms c)

abbrev pub IsEntry : List ℕ → Type 0
IsEntry c = length c ≡ 16

-- Entries of 16 bytes each, over names that end with a 0, are loaded without a read outside of the file,
-- one after the other: each adds the symbol of its name, unless it is a debugging entry or its name is
-- outside of the names.
pub symbols_loop-joined :
    (cs : List (List ℕ)) (names behind rest : List ℕ) (syms : Syms)
    → All IsEntry cs
    → symbols_loop (length cs) (suc (length names)) (names ++ (0 ∷ behind)) (joined cs rest) syms
      ≡ value (symbols_of (suc (length names)) (names ++ (0 ∷ behind)) cs syms)
unfolding symbols_loop
symbols_loop-joined [] names behind rest syms h = refl
symbols_loop-joined (c ∷ cs) names behind rest syms (h, hs) =
    let more = joined cs rest in
    let strtab = names ++ (0 ∷ behind) in
    let next : drop 16 (c ++ more) ≡ more =
      subst (λ n. drop n (c ++ more) ≡ more) h (drop-append c more) in
    let later = λ (s : Syms). symbols_loop-joined cs names behind rest s hs in
    rw (symbols_loop, field-append 1 4 c more (omega (arith, h)), next)
      (elim (Bool-cases (not (bit_and (part 1 4 c) 0xe0 == 0))) [
        | inl stab ↦ rw (stab, later syms) refl
        | inr no_stab ↦
            rw (no_stab, field-append 4 0 c more (omega (arith, h)))
              (elim (Bool-cases (leb (suc (length names)) (part 4 0 c))) [
                | inl outside ↦ rw (outside, later syms) refl
                | inr within ↦
                    let text = text_at-until_0 (part 4 0 c) names behind (ground (arith, within)) in
                    rw (within, field-append 8 8 c more (omega (arith, h)), text) (later _)
              ])
      ])
