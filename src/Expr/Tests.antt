-- ===== src/Expr/Tests.antt =====
-- The evaluation of expressions at concrete inputs.
use macos_c_debugger_arm.Debugger.Run.{initial}
use macos_c_debugger_arm.Expr.{
  Expr, num, ident, addr, deref, eval_as_pointer, eval_lvalue, eval_value,
}
use macos_c_debugger_arm.Expr.Access.{views-addr, untyped, address_of}
use macos_c_debugger_arm.Kernel.Toy.{Process, toy, toy_process}
use macos_c_debugger_arm.Prelude.{value, ◌>>=◌, ℕ, ◌≡◌, true, false, none, some, [], ◌∷◌}
use macos_c_debugger_arm.Syms.{Syms}
use macos_c_debugger_arm.Variables.{Outside, VarInfo, VarBase}

-- One variable, a pointer "p" to `int` at the frame pointer.
abbrev pointer_info : VarInfo
pointer_info = record {
  type = 105 ∷ 110 ∷ 116 ∷ 32 ∷ 42 ∷ [];
  element_type = [];
  size = 8;
  element_size = 0;
  pointee_size = 4;
  array_count = 0;
  is_pointer = true;
  is_signed = true;
  is_array = false;
}

abbrev outside : Outside
outside = record {
  find_local_var = λ name. some (pointer_info, VarBase.fb, 16);
  dwarf_lookup_struct = λ name. none;
  strtoul = λ text. none;
}

abbrev no_syms : Syms
no_syms = record { entries = []; slide = 0 }

abbrev process : Process
process = toy_process []

abbrev p : Expr
p = ident (112 ∷ [])

views-addr_example :
    (eval_lvalue outside (toy true) initial no_syms process (deref (addr p)) ≡ (
      eval_lvalue outside (toy true) initial no_syms process p >>= λ lv.
      value (untyped outside (toy true) initial no_syms process lv)))
    × (eval_value outside (toy true) initial no_syms process (addr (deref p)) ≡ (
        eval_as_pointer outside (toy true) initial no_syms process p >>= λ q.
        value (address_of outside (toy true) initial no_syms process q)))
views-addr_example = views-addr outside (toy true) initial no_syms process p

abbrev literal : ℕ → Expr
literal n = num n 0 false
