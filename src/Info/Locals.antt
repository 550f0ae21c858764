-- ===== src/Info/Locals.antt =====
-- `find_local_var` of src/debugger.c: the local variable of a name in the function at the program counter.
pub mod Listing
use macos_c_debugger_arm.Info.{
  Numbers, dwarf_line_depth, dwarf_starts_die, pc_in_range, parse_fbreg_offset, parse_hex_value,
  parse_quoted_value, subprogram_text, variable_text, parameter_text, low_pc_text, high_pc_text,
  location_text, name_text, type_text,
}
use macos_c_debugger_arm.Lineno.{has_part, same_text}
use macos_c_debugger_arm.Prelude.{
  ℕ, Bool, true, false, not, ◌&&◌, ◌||◌, Option, none, some, List, [], ◌∷◌, ◌==◌, leb,
  if◌then◌else◌, get_or, length,
}
use macos_c_debugger_arm.Variables.{VarBase, fb}

-- The fields of `cdbg_var_info_t` that the lines of an entry fill.
pub record Draft : Type 0 where
  pub name : List ℕ
  pub type : List ℕ
  pub base : VarBase
  pub fbreg_offset : ℕ
  pub has_location : Bool

abbrev pub empty_draft : Draft
empty_draft = record { name = []; type = []; base = fb; fbreg_offset = 0; has_location = false }

-- The variables of the loop: `reading` is `var` where `reading_var` is set.
pub record Scan : Type 0 where
  pub in_func : Bool
  pub func_matches : Bool
  pub func_depth : ℕ
  pub func_low : ℕ
  pub func_high : ℕ
  pub reading : Option Draft

abbrev pub start_scan : Scan
start_scan = record {
  in_func = false;
  func_matches = false;
  func_depth = 0;
  func_low = 0;
  func_high = 0;
  reading = none;
}

unfoldable pub var_ready : List ℕ → Draft → Bool
var_ready name var = var.has_location && (not (length var.name == 0) && same_text var.name name)

abbrev pub or_else {ℓ} : {A : Type ℓ} → Option A → A → A
or_else none a = a
or_else (some b) a = b

module _ (numbers : Numbers) where
  -- A name has 128 characters and a type 128 in their buffers.
  unfoldable pub name_or_type_line : List ℕ → Draft → Draft
  name_or_type_line line var =
      if has_part name_text line
      then record var { name = or_else (parse_quoted_value 127 line) var.name }
      else if has_part type_text line
      then record var { type = or_else (parse_quoted_value 127 line) var.type }
      else var

  -- A line with a location: the name or the type where it has no offset.
  unfoldable pub located : List ℕ → Draft → Option VarBase × Option ℕ → Draft
  located line var (base, none) =
      name_or_type_line line (record var { base = or_else base var.base })
  located line var (base, some value) = record var {
    base = or_else base var.base;
    fbreg_offset = value;
    has_location = true;
  }

  unfoldable pub draft_line : List ℕ → Draft → Draft
  draft_line line var =
      if has_part location_text line
      then located line var (parse_fbreg_offset numbers line)
      else name_or_type_line line var

  module _ (link_pc : ℕ) where
    abbrev with_range : Scan → ℕ → ℕ → Scan
    with_range s low high = record s {
      func_low = low;
      func_high = high;
      func_matches = pc_in_range link_pc low high;
    }

    unfoldable pub attribute_line : List ℕ → Scan → Scan
    attribute_line line s =
        if s.in_func && has_part low_pc_text line
        then with_range s (or_else (parse_hex_value numbers line) s.func_low) s.func_high
        else if s.in_func && has_part high_pc_text line
        then with_range s s.func_low (or_else (parse_hex_value numbers line) s.func_high)
        else elim s.reading [
          | none ↦ s
          | some var ↦ record s { reading = some (draft_line line var) }
        ]

    -- A line that begins an entry ends the function that is not around it.
    unfoldable pub die_line : List ℕ → Scan → Scan
    die_line line s =
        let depth = dwarf_line_depth line in
        let left = s.in_func && leb depth s.func_depth in
        let s' = if left then record s { in_func = false; func_matches = false } else s in
        if has_part subprogram_text line
        then record s {
          in_func = true;
          func_matches = false;
          func_depth = depth;
          func_low = 0;
          func_high = 0;
        }
        else if s'.in_func
            && (s'.func_matches && (has_part variable_text line || has_part parameter_text line))
        then record s' { reading = some empty_draft }
        else attribute_line line s'

    -- The loop, and the entry that is being read at the end.
    unfoldable pub locals_loop : List ℕ → Scan → List (List ℕ) → Option Draft
    locals_loop name s [] = elim s.reading [
      | none ↦ none
      | some var ↦ if var_ready name var then some var else none
    ]
    locals_loop name s (line ∷ lines) =
        let within = locals_loop name (attribute_line line s) lines in
        let next = locals_loop name (die_line line (record s { reading = none })) lines in
        if dwarf_starts_die line
        then (elim s.reading [
          | none ↦ next
          | some var ↦ if var_ready name var then some var else next
        ])
        else within

  unfoldable pub find_local_draft : List (List ℕ) → ℕ → List ℕ → Option Draft
  find_local_draft lines link_pc name = locals_loop link_pc name start_scan lines
