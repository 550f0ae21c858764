-- ===== src/Lineno.antt =====
-- The lookups of src/lineno.c in the table of line entries, and `resolve_break_line` of src/debugger.c. A file's
-- name is the list of its characters, without the 0 at its end; a filter that is NULL is the empty list.
pub mod Best
pub mod Lookup
pub mod Unique
mod Tests
use mathlib.Core.Option
use macos_c_debugger_arm.Prelude.{
  ℕ, zero, suc, ◌+◌, ◌-◌, Bool, true, false, not, ◌&&◌, ◌||◌, Option, none, some, List, [], ◌∷◌,
  ◌==◌, ltb, leb, if◌then◌else◌, u64,
}

pub record LineEntry : Type 0 where
  pub address : ℕ
  pub line : ℕ
  pub column : ℕ
  pub file : List ℕ

pub record Lineno : Type 0 where
  pub entries : List LineEntry
  pub slide : ℕ

-- strcmp(a, b) == 0
unfoldable pub same_text : List ℕ → List ℕ → Bool
same_text [] [] = true
same_text [] (b ∷ bs) = false
same_text (a ∷ rest) [] = false
same_text (a ∷ rest) (b ∷ bs) = a == b && same_text rest bs

-- The text begins with the prefix.
unfoldable pub begins_with : List ℕ → List ℕ → Bool
begins_with [] text = true
begins_with (p ∷ ps) [] = false
begins_with (p ∷ ps) (c ∷ cs) = p == c && begins_with ps cs

-- strstr(text, part) != NULL
unfoldable pub has_part : List ℕ → List ℕ → Bool
unfolding begins_with
has_part part [] = begins_with part []
has_part part (c ∷ cs) = begins_with part (c ∷ cs) || has_part part cs

-- What stands behind the last '/', or else `base`.
unfoldable pub base_name : List ℕ → List ℕ → List ℕ
base_name base [] = base
base_name base (c ∷ cs) = base_name (if c == 47 then cs else base) cs

unfoldable pub file_matches : List ℕ → List ℕ → Bool
unfolding has_part base_name same_text
file_matches entry_file [] = true
file_matches entry_file (c ∷ cs) =
    has_part (c ∷ cs) entry_file || same_text (base_name entry_file entry_file) (c ∷ cs)

abbrev pub runtime_addr : Lineno → ℕ → ℕ
runtime_addr ln link_addr = u64 (link_addr + ln.slide)

-- One round of the loops below: a candidate that is kept takes the place of one that it is better than.
unfoldable pub choose {ℓ} : {A : Type ℓ} → (A → Bool) → (A → A → Bool) → Option A → A → Option A
choose keep better none x = if keep x then some x else none
choose keep better (some best) x = if keep x && better x best then some x else some best

-- The loop over the entries, with the best so far.
unfoldable pub best_by {ℓ} :
    {A : Type ℓ} → (A → Bool) → (A → A → Bool) → Option A → List A → Option A
unfolding choose
best_by keep better best [] = best
best_by keep better best (x ∷ xs) = best_by keep better (choose keep better best x) xs

unfoldable pub lookup_pc : Lineno → ℕ → Option LineEntry
unfolding best_by
lookup_pc ln runtime_pc =
    best_by (λ e. leb (runtime_addr ln e.address) runtime_pc)
      (λ e best. ltb (runtime_addr ln best.address) (runtime_addr ln e.address)) none ln.entries

unfoldable pub lookup_line : Lineno → List ℕ → ℕ → Option LineEntry
unfolding best_by file_matches
lookup_line ln filter line =
    best_by (λ e. e.line == line && file_matches e.file filter)
      (λ e match. ltb e.address match.address) none ln.entries

-- The loop of `cdbg_lineno_lookup_line_unique`, with `only_file` and `match` from the first entry on.
unfoldable pub unique_loop : ℕ → List ℕ → LineEntry → List LineEntry → Option LineEntry
unfolding same_text
unique_loop line only_file match [] = some match
unique_loop line only_file match (e ∷ es) =
    let skipped = unique_loop line only_file match es in
    let next = unique_loop line only_file (if ltb e.address match.address then e else match) es in
    if e.line == line then if same_text only_file e.file then next else none else skipped

unfoldable pub unique_start : ℕ → List LineEntry → Option LineEntry
unfolding unique_loop
unique_start line [] = none
unique_start line (e ∷ es) =
    let skipped = unique_start line es in
    let found = unique_loop line e.file e es in if e.line == line then found else skipped

unfoldable pub lookup_line_unique : Lineno → ℕ → Option LineEntry
unfolding unique_start
lookup_line_unique ln line = unique_start line ln.entries

-- The loop of `lineno_entry_at_pc`, which lowers `max_pc` to before the next entry.
unfoldable pub max_pc_loop : Lineno → ℕ → ℕ → List LineEntry → ℕ
max_pc_loop ln entry_runtime max_pc [] = max_pc
max_pc_loop ln entry_runtime max_pc (e ∷ es) =
    let addr = runtime_addr ln e.address in
    max_pc_loop ln entry_runtime
      (if ltb entry_runtime addr && ltb addr max_pc then addr - 1 else max_pc) es

unfoldable pub entry_at_pc : Lineno → ℕ → Option LineEntry
unfolding lookup_pc max_pc_loop
entry_at_pc ln runtime_pc = elim (lookup_pc ln runtime_pc) [
  | none ↦ none
  | some entry ↦
      let start = runtime_addr ln entry.address in
      let max_pc = max_pc_loop ln start (u64 (start + 128)) ln.entries in
      if entry.line == 0 then none else if ltb max_pc runtime_pc then none else some entry
]

unfoldable pub lookup_next_line_after_pc : Lineno → ℕ → Option LineEntry
unfolding lookup_pc best_by same_text
lookup_next_line_after_pc ln runtime_pc = elim (lookup_pc ln runtime_pc) [
  | none ↦ none
  | some current ↦
      best_by
        (λ e.
          not (leb (runtime_addr ln e.address) runtime_pc)
          && (same_text e.file current.file && not (e.line == current.line)))
        (λ e next. ltb e.address next.address) none ln.entries
]

-- The address for a breakpoint at a line.
unfoldable pub resolve_break_line : Lineno → List ℕ → ℕ → Option ℕ
unfolding lookup_line lookup_line_unique
resolve_break_line ln [] line =
    Option.map (λ e. runtime_addr ln e.address) (lookup_line_unique ln line)
resolve_break_line ln (c ∷ cs) line =
    Option.map (λ e. runtime_addr ln e.address) (lookup_line ln (c ∷ cs) line)
