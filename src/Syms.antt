-- ===== src/Syms.antt =====
-- src/syms.c less the reading of files: the table of symbols, and the lookup by address of src/debugger.c. A
-- name is the list of its characters; a type is the character that nm prints. Allocation does not fail.
pub mod Load
pub mod Symtab
pub mod Lookup
mod Tests
use macos_c_debugger_arm.Lineno.{same_text, has_part, best_by}
use macos_c_debugger_arm.Prelude.{
  ℕ, ◌+◌, ◌-◌, Bool, true, false, not, ◌&&◌, ◌||◌, Option, none, some, List, [], ◌∷◌, ◌++◌, ◌==◌,
  ltb, leb, if◌then◌else◌, take, bit_and, u64,
}

pub record SymEntry : Type 0 where
  pub address : ℕ
  pub type : ℕ
  pub name : List ℕ

pub record Syms : Type 0 where
  pub entries : List SymEntry
  pub slide : ℕ

-- By N_TYPE (0x0e) and N_EXT (1): N_UNDF is 0, N_ABS 2, N_SECT 0x0e, N_PBUD 0x0c, N_INDR 0x0a.
unfoldable pub nlist_type_char : ℕ → ℕ
nlist_type_char type =
    let base = bit_and type 0x0e in
    let external = not (bit_and type 1 == 0) in
    if base == 0
    then if external then 85 else 117
    else if base == 2
    then if external then 65 else 97
    else if base == 0x0e
    then if external then 84 else 116
    else if base == 0x0c
    then 90
    else if base == 0x0a
    then 73
    else 63

-- Not '?' or '-', and a name that begins with a printable character but '.' and 'L'.
unfoldable pub sym_name_interesting : List ℕ → ℕ → Bool
sym_name_interesting [] type = false
sym_name_interesting (c ∷ cs) type =
    not (type == 63 || type == 45) && (not (c == 46 || c == 76) && (leb 32 c && leb c 126))

-- CDBG_SYM_MAX_NAME - 1 characters are kept.
unfoldable pub syms_push : Syms → ℕ → ℕ → List ℕ → Syms
unfolding sym_name_interesting
syms_push syms addr type name =
    if sym_name_interesting name type
    then record syms {
      entries = syms.entries ++ (record { address = addr; type = type; name = take 255 name } ∷ []);
    }
    else syms

abbrev pub syms_runtime_addr : Syms → ℕ → ℕ
syms_runtime_addr syms link_addr = u64 (link_addr + syms.slide)

-- The name as the linker has it, with '_' in front.
unfoldable pub link_name : List ℕ → List ℕ
link_name [] = 95 ∷ []
link_name (c ∷ cs) = if c == 95 then c ∷ cs else take 255 (95 ∷ c ∷ cs)

unfoldable pub find_name : List ℕ → List SymEntry → Option SymEntry
unfolding same_text
find_name name [] = none
find_name name (e ∷ es) = if same_text e.name name then some e else find_name name es

unfoldable pub lookup_name : Syms → List ℕ → Option SymEntry
unfolding find_name link_name
lookup_name syms name = find_name (link_name name) syms.entries

unfoldable pub sym_matches : List ℕ → List ℕ → Bool
unfolding has_part
sym_matches name [] = true
sym_matches [] (f ∷ fs) = has_part (f ∷ fs) []
sym_matches (c ∷ cs) (f ∷ fs) = has_part (f ∷ fs) (c ∷ cs) || c == 95 && has_part (f ∷ fs) cs

-- CDBG_MAX_SYMBOL_OFFSET
abbrev pub max_symbol_offset : ℕ
max_symbol_offset = 0x100000

-- A defined function: 'T' or 't'.
abbrev pub is_function : SymEntry → Bool
is_function e = not (e.address == 0) && (e.type == 84 || e.type == 116)

-- The loop: the function with the highest address that is not above `pc`.
unfoldable pub best_symbol : Syms → ℕ → Option SymEntry
unfolding best_by
best_symbol syms pc =
    best_by (λ e. is_function e && leb (syms_runtime_addr syms e.address) pc)
      (λ e best. ltb (syms_runtime_addr syms best.address) (syms_runtime_addr syms e.address)) none
      syms.entries

-- The symbol, and the offset of the address from it.
unfoldable pub lookup_symbol_for_pc : Syms → ℕ → Option (SymEntry × ℕ)
unfolding best_symbol
lookup_symbol_for_pc syms pc = elim (best_symbol syms pc) [
  | none ↦ none
  | some e ↦
      let offset = pc - syms_runtime_addr syms e.address in
      if ltb max_symbol_offset offset then none else some (e, offset)
]
