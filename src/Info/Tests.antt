-- ===== src/Info/Tests.antt =====
-- The lines of dwarfdump --debug-info at concrete inputs.
use macos_c_debugger_arm.Dwarf.Load.{find_part, split_quote}
use macos_c_debugger_arm.Dwarf.Program.{drop}
use macos_c_debugger_arm.Info.{
  Numbers, after_char, skip_spaces, from_number, dwarf_line_depth, dwarf_starts_die, pc_in_range,
  parse_var_base, parse_fbreg_offset, parse_hex_value, parse_quoted_value,
}
use macos_c_debugger_arm.Info.Locals.{find_local_draft, var_ready}
use macos_c_debugger_arm.Info.Locals.Listing.{
  VarLines, FuncLines, listing, find_local_draft-listing,
}
use macos_c_debugger_arm.Info.Shown.{show_locals, collect_show_vars}
use macos_c_debugger_arm.Info.Shown.Unique.{IsCollected, collect_show_vars-IsCollected}
use macos_c_debugger_arm.Lineno.{has_part, begins_with, same_text}
use macos_c_debugger_arm.Prelude.{
  ℕ, ◌+◌, ◌-◌, ◌*◌, ◌≡◌, refl, true, ◌&&◌, none, some, List, [], ◌∷◌, leb, if◌then◌else◌,
}
use macos_c_debugger_arm.Syms.{Syms}
use macos_c_debugger_arm.Variables.{Outside, fb}

-- The decimal digits that a text begins with, and what is behind them.
abbrev digits : ℕ → List ℕ → ℕ × List ℕ
digits n [] = (n, [])
digits n (c ∷ cs) =
    let rest = digits (n * 10 + (c - 48)) cs in if leb 48 c && leb c 57 then rest else (n, c ∷ cs)

-- A number behind a sign, or behind "0x" (in base 16 too, the tests have one digit).
abbrev numbers : Numbers
numbers = record {
  strtoull = λ base text. some (digits 0 (drop 2 text));
  strtoll = λ text. some (digits 0 text);
}

abbrev func : FuncLines
func = record {
  die =
      48 ∷ 58 ∷ 32 ∷ 68 ∷ 87 ∷ 95 ∷ 84 ∷ 65 ∷ 71 ∷ 95 ∷ 115 ∷ 117 ∷ 98 ∷ 112 ∷ 114 ∷ 111 ∷ 103 ∷ 114
      ∷ 97 ∷ 109 ∷ [];
  low_line =
      68 ∷ 87 ∷ 95 ∷ 65 ∷ 84 ∷ 95 ∷ 108 ∷ 111 ∷ 119 ∷ 95 ∷ 112 ∷ 99 ∷ 32 ∷ 40 ∷ 48 ∷ 120 ∷ 52 ∷ 41
      ∷ [];
  high_line =
      68 ∷ 87 ∷ 95 ∷ 65 ∷ 84 ∷ 95 ∷ 104 ∷ 105 ∷ 103 ∷ 104 ∷ 95 ∷ 112 ∷ 99 ∷ 32 ∷ 40 ∷ 48 ∷ 120 ∷ 56
      ∷ 41 ∷ [];
  low = 4;
  high = 8;
}

-- The variable "n" at 12 above the frame.
abbrev var : VarLines
var = record {
  die =
      49 ∷ 58 ∷ 32 ∷ 32 ∷ 68 ∷ 87 ∷ 95 ∷ 84 ∷ 65 ∷ 71 ∷ 95 ∷ 118 ∷ 97 ∷ 114 ∷ 105 ∷ 97 ∷ 98 ∷ 108
      ∷ 101 ∷ [];
  location =
      68 ∷ 87 ∷ 95 ∷ 65 ∷ 84 ∷ 95 ∷ 108 ∷ 111 ∷ 99 ∷ 97 ∷ 116 ∷ 105 ∷ 111 ∷ 110 ∷ 32 ∷ 40 ∷ 68 ∷ 87
      ∷ 95 ∷ 79 ∷ 80 ∷ 95 ∷ 102 ∷ 98 ∷ 114 ∷ 101 ∷ 103 ∷ 32 ∷ 49 ∷ 50 ∷ 41 ∷ [];
  name_line =
      68 ∷ 87 ∷ 95 ∷ 65 ∷ 84 ∷ 95 ∷ 110 ∷ 97 ∷ 109 ∷ 101 ∷ 32 ∷ 40 ∷ 34 ∷ 110 ∷ 34 ∷ 41 ∷ [];
  type_line =
      68 ∷ 87 ∷ 95 ∷ 65 ∷ 84 ∷ 95 ∷ 116 ∷ 121 ∷ 112 ∷ 101 ∷ 32 ∷ 40 ∷ 34 ∷ 105 ∷ 110 ∷ 116 ∷ 34 ∷ 41
      ∷ [];
  draft = record {
    name = 110 ∷ [];
    type = 105 ∷ 110 ∷ 116 ∷ [];
    base = fb;
    fbreg_offset = 12;
    has_location = true;
  };
}

find_local_draft-listing_example :
    find_local_draft numbers (listing func (var ∷ [])) 5 (110 ∷ []) ≡ some var.draft
unfolding has_part begins_with dwarf_starts_die parse_hex_value find_part drop dwarf_line_depth
    after_char skip_spaces parse_fbreg_offset parse_var_base from_number parse_quoted_value
    split_quote pc_in_range var_ready same_text
find_local_draft-listing_example =
    find_local_draft-listing numbers 5 (110 ∷ []) func (var ∷ [])
      (refl, refl, refl, refl, refl, refl, refl, refl, refl)
      (
        (
          (refl, refl, refl, refl, refl, refl),
          ((refl, refl, refl), refl, refl),
          ((refl, refl, refl), refl, refl, refl),
          ((refl, refl, refl), refl, refl, refl, refl),
          refl,
        ),
        tt,
      )

abbrev outside : Outside
outside = record {
  find_local_var = λ name. none;
  dwarf_lookup_struct = λ name. none;
  strtoul = λ text. none;
}

abbrev no_syms : Syms
no_syms = record { entries = []; slide = 0 }

collect_show_vars-IsCollected_example : IsCollected 128 (
    collect_show_vars outside 128 numbers 5
      (λ base. 0x1000)
      no_syms
      show_locals
      (some (some (listing func (var ∷ var ∷ [])))))
collect_show_vars-IsCollected_example =
    collect_show_vars-IsCollected outside 128 numbers 5 (λ base. 0x1000) no_syms show_locals
      (some (some (listing func (var ∷ var ∷ []))))
