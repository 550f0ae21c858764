-- ===== src/Info.antt =====
-- The lines of `dwarfdump --debug-info`, as src/debugger.c reads them: `parse_quoted_value` to
-- `parse_member_offset`. The functions of the C library that read numbers are the parameter `Numbers`.
mod Words
pub mod Locals
pub mod Structs
pub mod Shown
pub mod Printed
mod Tests
use macos_c_debugger_arm.Dwarf.Load.{find_part, split_quote}
use macos_c_debugger_arm.Dwarf.Program.{drop}
use macos_c_debugger_arm.Lineno.{has_part}
use macos_c_debugger_arm.Prelude.{
  ℕ, suc, ◌+◌, Bool, true, false, not, ◌&&◌, ◌||◌, Option, none, some, List, [], ◌∷◌, ◌==◌, ltb,
  leb, if◌then◌else◌, take, u64,
}
use macos_c_debugger_arm.Variables.{VarBase, fb, sp, x29}
pub use Words.*

-- Each with the text behind the number; none where there is no number. A negative one is the word that holds it.
pub record Numbers : Type 0 where
  pub strtoull : ℕ → List ℕ → Option (ℕ × List ℕ)
  pub strtoll : List ℕ → Option (ℕ × List ℕ)

-- The text between the first two quotes, cut to `n` characters.
unfoldable pub parse_quoted_value : ℕ → List ℕ → Option (List ℕ)
parse_quoted_value n line = elim (split_quote line) [
  | none ↦ none
  | some (before, quoted) ↦ elim (split_quote quoted) [
    | none ↦ none
    | some (text, behind) ↦ some (take n text)
  ]
]

-- What stands behind the first character of the kind.
unfoldable pub after_char : ℕ → List ℕ → Option (List ℕ)
after_char c [] = none
after_char c (x ∷ xs) = let later = after_char c xs in if x == c then some xs else later

unfoldable pub skip_spaces : List ℕ → ℕ × List ℕ
skip_spaces [] = (0, [])
skip_spaces (c ∷ cs) =
    let (count, rest) = skip_spaces cs in if c == 32 then (suc count, rest) else (0, c ∷ cs)

-- strpbrk(p, "+-0123456789"): the text from the first of them on.
unfoldable pub from_number : List ℕ → Option (List ℕ)
from_number [] = none
from_number (c ∷ cs) =
    let later = from_number cs in
    if c == 43 || (c == 45 || leb 48 c && leb c 57) then some (c ∷ cs) else later

unfoldable pub dwarf_line_depth : List ℕ → ℕ
dwarf_line_depth line = elim (after_char 58 line) [ none ↦ 0 | some text ↦ (skip_spaces text).0 ]

unfoldable pub dwarf_starts_die : List ℕ → Bool
dwarf_starts_die line = has_part tag_text line || has_part null_text line

-- A high_pc below the low_pc is an offset.
unfoldable pub pc_in_range : ℕ → ℕ → ℕ → Bool
pc_in_range pc low high =
    if low == 0 || high == 0
    then false
    else leb low pc && ltb pc (if ltb high low then u64 (high + low) else high)

module _ (numbers : Numbers) where
  -- The number that the text begins with.
  abbrev number : ℕ → List ℕ → Option ℕ
  number base text = elim (numbers.strtoull base text) [
    | none ↦ none
    | some (value, rest) ↦ some value
  ]

  unfoldable pub parse_hex_value : List ℕ → Option ℕ
  parse_hex_value line = elim (find_part hex_text line) [ none ↦ none | some hex ↦ number 16 hex ]

  unfoldable pub parse_member_offset : List ℕ → Option ℕ
  parse_member_offset line = elim (find_part member_location_text line) [
    | none ↦ none
    | some loc ↦ elim (after_char 40 loc) [ none ↦ none | some text ↦ number 16 text ]
  ]

  -- The byte size of a line with it.
  unfoldable pub parse_byte_size : List ℕ → Option ℕ
  parse_byte_size line = elim (after_char 40 line) [ none ↦ none | some text ↦ number 16 text ]

  unfoldable pub parse_addr_location : List ℕ → Option ℕ
  parse_addr_location line = elim (find_part addr_text line) [
    | none ↦ none
    | some op ↦ number 0 (skip_spaces (drop 10 op)).1
  ]

  -- The base that is set, with what stands behind its operation.
  unfoldable pub parse_var_base : List ℕ → Option (VarBase × List ℕ)
  parse_var_base line = elim (find_part fbreg_text line) [
    | some p ↦ some (fb, drop 11 p)
    | none ↦ elim (find_part breg_text line) [
      | none ↦ none
      | some p ↦ elim (numbers.strtoll (drop 10 p)) [
        | none ↦ none
        | some (reg, rest) ↦
            if reg == 31 then some (sp, rest) else if reg == 29 then some (x29, rest) else none
      ]
    ]
  ]

  -- The base is set also where no offset follows.
  unfoldable pub parse_fbreg_offset : List ℕ → Option VarBase × Option ℕ
  parse_fbreg_offset line = elim (parse_var_base line) [
    | none ↦ (none, none)
    | some (base, rest) ↦ elim (from_number rest) [
      | none ↦ (some base, none)
      | some p ↦ elim (numbers.strtoll p) [
        | none ↦ (some base, none)
        | some (value, behind) ↦ (some base, some value)
      ]
    ]
  ]
