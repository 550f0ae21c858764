-- ===== src/Debugger/Target/Tests.antt =====
-- The places of the command break at concrete inputs.
use macos_c_debugger_arm.Debugger.Target.{
  split_colon, parse_u64, dis_place, dis_plain, dis_symbol, break_addr, break_place, break_plain,
  break_symbol,
}
use macos_c_debugger_arm.Debugger.Target.Agree.{IsBody, break_addr-resolve_dis_target}
use macos_c_debugger_arm.Info.{Numbers}
use macos_c_debugger_arm.Lineno.{
  Lineno, begins_with, best_by, choose, lookup_pc, lookup_next_line_after_pc, same_text,
}
use macos_c_debugger_arm.Prelude.{ℕ, ◌≡◌, refl, none, some, [], ◌∷◌}
use macos_c_debugger_arm.Syms.{Syms, lookup_name, find_name, link_name}

abbrev numbers : Numbers
numbers = record { strtoull = λ base text. none; strtoll = λ text. none }

-- "_f" at 0x1000, whose first line is at 0x1000 and its second at 0x1010.
abbrev syms : Syms
syms = record {
  entries = record { address = 0x1000; type = 84; name = 95 ∷ 102 ∷ [] } ∷ [];
  slide = 0;
}

abbrev ln : Lineno
ln = record {
  entries =
      record { address = 0x1000; line = 3; column = 0; file = 97 ∷ [] }
      ∷ record { address = 0x1010; line = 4; column = 0; file = 97 ∷ [] }
      ∷ [];
  slide = 0;
}

break_addr-resolve_dis_target_example :
    (b : ℕ) × (break_addr numbers ln syms (102 ∷ []) ≡ some b) × IsBody ln 0x1000 b
unfolding split_colon parse_u64 dis_place dis_plain dis_symbol lookup_name find_name link_name
    same_text
break_addr-resolve_dis_target_example =
    break_addr-resolve_dis_target numbers ln syms (102 ∷ []) 0x1000 refl refl

-- The address of the second line.
f_body : break_addr numbers ln syms (102 ∷ []) ≡ some 0x1010
unfolding split_colon parse_u64 break_place break_plain break_symbol lookup_name find_name link_name
    same_text begins_with lookup_next_line_after_pc lookup_pc best_by choose
f_body = refl
