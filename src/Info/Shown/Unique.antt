-- ===== src/Info/Shown/Unique.antt =====
-- The variables that are collected in src/debugger.c are within the array and have different names.
use macos_c_debugger_arm.Info.{Numbers, dwarf_starts_die}
use macos_c_debugger_arm.Info.Shown.{
  Scope, show_locals, show_args, show_globals, ShowVar, ShowScan, start_scan, includes, show_addr,
  sym_is_global_data, show_var_name_exists, show_var_push, collect_globals_loop, end_entry,
  show_line, show_loop, collect_show_vars,
}
use macos_c_debugger_arm.Prelude.{
  ℕ, ◌≤◌, ◌≡◌, false, not, ◌&&◌, ◌||◌, Option, none, some, List, [], ◌∷◌, ◌++◌, ◌==◌, leb, length,
  take, arith, by_if, by_option, subst, sym, append-nil, append_assoc, inl, inr, Bool-cases,
  length-append,
}
use macos_c_debugger_arm.Syms.{SymEntry, Syms, syms_runtime_addr}
use macos_c_debugger_arm.Variables.{VarBase, Outside, complete_var_type, symbol_type}

-- No name is before an equal one: the names as the test of the code sees them.
abbrev pub AreDifferent : List ShowVar → List ShowVar → Type 0
AreDifferent before [] = Unit
AreDifferent before (v ∷ vs) =
    (show_var_name_exists before v.name ≡ false) × AreDifferent (before ++ (v ∷ [])) vs

abbrev pub IsCollected : ℕ → List ShowVar → Type 0
IsCollected max vars = (length vars ≤ max) × AreDifferent [] vars

push-AreDifferent :
    (before vars : List ShowVar) (v : ShowVar)
    → AreDifferent before vars
    → show_var_name_exists (before ++ vars) v.name ≡ false
    → AreDifferent before (vars ++ (v ∷ []))
push-AreDifferent before [] v h new =
    (subst (λ t. show_var_name_exists t v.name ≡ false) (append-nil before) new, tt)
push-AreDifferent before (u ∷ vars) v (first, h) new = (
  first,
  push-AreDifferent (before ++ (u ∷ [])) vars v h (
      subst (λ t. show_var_name_exists t v.name ≡ false) (sym (append_assoc before (u ∷ []) vars))
        new),
)

module _ (o : Outside) (max : ℕ) where
  show_var_push-IsCollected :
      (vars : List ShowVar) (name type : List ℕ) (addr : ℕ)
      → IsCollected max vars
      → IsCollected max (show_var_push o max vars name type addr)
  unfolding show_var_push
  show_var_push-IsCollected vars name type addr (few, different) =
      elim (Bool-cases
        (length name == 0 || (leb max (length vars) || show_var_name_exists vars name))) [
          | inl e ↦ rw (show_var_push, e) (few, different)
          | inr e ↦
              let room : leb max (length vars) ≡ false = ground (arith, e) in
              let new : show_var_name_exists vars name ≡ false = ground (arith, e) in
              let v : ShowVar = record {
                name = name;
                var = complete_var_type o type;
                addr = addr;
              } in
              let long = length-append vars (v ∷ []) in
              rw (show_var_push, e)
                (ground (arith, long, room), push-AreDifferent [] vars v different new)
        ]

  collect_globals_loop-IsCollected :
      (syms : Syms) (es : List SymEntry) (vars : List ShowVar)
      → IsCollected max vars
      → IsCollected max (collect_globals_loop o max syms es vars)
  unfolding collect_globals_loop
  collect_globals_loop-IsCollected syms [] vars h = h
  collect_globals_loop-IsCollected syms (e ∷ es) vars h =
      by_if (IsCollected max) (leb max (length vars)) h (
        collect_globals_loop-IsCollected syms es _ (
          by_if (IsCollected max)
            (e.address == 0
              || not (sym_is_global_data o max e.type)
              || show_var_name_exists vars e.name)
            h
            (show_var_push-IsCollected vars (take 127 e.name) (symbol_type o)
              (syms_runtime_addr syms e.address) h)))

  module _ (numbers : Numbers) (link_pc : ℕ) (base_addr : VarBase → ℕ) (syms : Syms)
      (scope : Scope) where
    end_entry-IsCollected :
        (s : ShowScan) (vars : List ShowVar)
        → IsCollected max vars
        → IsCollected max (end_entry o max numbers link_pc base_addr syms scope s vars)
    unfolding end_entry
    end_entry-IsCollected s vars h = by_option (IsCollected max) s.reading h (λ v.
        by_if (IsCollected max)
          (not (length v.name == 0) && includes o max numbers link_pc base_addr syms scope s v)
          (show_var_push-IsCollected vars v.name v.type
            (show_addr o max numbers link_pc base_addr syms scope v) h)
          h)

    show_loop-IsCollected :
        (lines : List (List ℕ)) (s : ShowScan) (vars : List ShowVar)
        → IsCollected max vars
        → IsCollected max (show_loop o max numbers link_pc base_addr syms scope lines (s, vars))
    unfolding show_loop show_line
    show_loop-IsCollected [] s vars h = end_entry-IsCollected s vars h
    show_loop-IsCollected (line ∷ lines) s vars h = elim (Bool-cases (dwarf_starts_die line)) [
      | inl e ↦ rw e (show_loop-IsCollected lines _ _ (end_entry-IsCollected s vars h))
      | inr e ↦ rw e (show_loop-IsCollected lines _ _ h)
    ]

-- Whatever the lines are, the variables that are collected for a scope are at most as many as the array
-- has places, and no two of them have the same name.
pub collect_show_vars-IsCollected :
    (o : Outside) (max : ℕ) (numbers : Numbers) (link_pc : ℕ) (base_addr : VarBase → ℕ)
    (syms : Syms) (scope : Scope) (printed : Option (Option (List (List ℕ))))
    → IsCollected max (collect_show_vars o max numbers link_pc base_addr syms scope printed)
unfolding collect_show_vars
collect_show_vars-IsCollected o max numbers link_pc base_addr syms show_globals none =
    collect_globals_loop-IsCollected o max syms syms.entries [] (omega arith, tt)
collect_show_vars-IsCollected o max numbers link_pc base_addr syms show_locals none =
    (omega arith, tt)
collect_show_vars-IsCollected o max numbers link_pc base_addr syms show_args none =
    (omega arith, tt)
collect_show_vars-IsCollected o max numbers link_pc base_addr syms scope (some none) =
    (omega arith, tt)
collect_show_vars-IsCollected o max numbers link_pc base_addr syms show_globals
      (some (some lines)) =
    collect_globals_loop-IsCollected o max syms syms.entries _ (
      show_loop-IsCollected o max numbers link_pc base_addr syms show_globals lines start_scan []
        (omega arith, tt))
collect_show_vars-IsCollected o max numbers link_pc base_addr syms show_locals (some (some lines)) =
    show_loop-IsCollected o max numbers link_pc base_addr syms show_locals lines start_scan []
      (omega arith, tt)
collect_show_vars-IsCollected o max numbers link_pc base_addr syms show_args (some (some lines)) =
    show_loop-IsCollected o max numbers link_pc base_addr syms show_args lines start_scan []
      (omega arith, tt)
