-- ===== src/Debugger/Assign.antt =====
-- The command set of src/debugger.c: `split_assignment`, `cmd_set_language`, `cmd_set_print`, `cmd_set_malloc_log`,
-- `resolve_set_lhs` and `cmd_set`, with `cdbg_expr_eval` of src/expr_eval.c. The parser is generated code, and a
-- parameter, as is `strtol`. What the command prints is left out; its argument has less than CDBG_MAX_CMD characters.
pub mod Split
mod Tests
use macos_c_debugger_arm.Debugger.State.{Cdbg, refresh_regs}
use macos_c_debugger_arm.Dwarf.Program.{drop}
use macos_c_debugger_arm.Expr.{Expr, ExprResult, eval_value, expr_eval_lvalue}
use macos_c_debugger_arm.Kernel.{Kernel}
use macos_c_debugger_arm.Language.{Language, language_parse, language_check_expr}
use macos_c_debugger_arm.Lineno.{same_text, begins_with}
use macos_c_debugger_arm.Prelude.{
  ℕ, ◌+◌, Bool, true, false, not, ◌&&◌, ◌||◌, Option, none, some, List, [], ◌∷◌, ◌==◌, leb,
  if◌then◌else◌, length, Evaluated, value, fails, undefined, ◌>>=◌,
}
use macos_c_debugger_arm.Regs.Names.{regs_set_by_name}
use macos_c_debugger_arm.Syms.{Syms}
use macos_c_debugger_arm.Types.{is_space, trim_space}
use macos_c_debugger_arm.Values.{write_scalar_value}
use macos_c_debugger_arm.Variables.{Outside}

-- One of "<>!".
abbrev pub is_compare : ℕ → Bool
is_compare c = c == 60 || (c == 62 || c == 33)

abbrev pub begins_equal : List ℕ → Bool
begins_equal [] = false
begins_equal (c ∷ cs) = c == 61

abbrev pub with_front : ℕ → Option (List ℕ × List ℕ) → Option (List ℕ × List ℕ)
with_front c none = none
with_front c (some (before, behind)) = some (c ∷ before, behind)

-- The loop over the text, behind the character `prev`: what is in front of the first '=' that is taken for an
-- assignment, and behind it. There is no character before the first, for which 0 stands.
unfoldable pub split_equal : ℕ → List ℕ → Option (List ℕ × List ℕ)
split_equal prev [] = none
split_equal prev (c ∷ cs) =
    let later = with_front c (split_equal c cs) in
    if c == 61 && (not (is_compare prev) && not (begins_equal cs)) then some ([], cs) else later

unfoldable pub split_space : List ℕ → Option (List ℕ × List ℕ)
split_space [] = none
split_space (c ∷ cs) =
    let later = with_front c (split_space cs) in if is_space c then some ([], cs) else later

-- Both sides without the spaces around them; none where one is empty.
abbrev pub both_sides : List ℕ × List ℕ → Option (List ℕ × List ℕ)
both_sides (lhs, rhs) =
    if length (trim_space lhs) == 0 || length (trim_space rhs) == 0
    then none
    else some (trim_space lhs, trim_space rhs)

unfoldable pub split_assignment : List ℕ → Option (List ℕ × List ℕ)
split_assignment args =
    let text = trim_space args in
    elim (split_equal 0 text) [
      | some sides ↦ both_sides sides
      | none ↦ elim (split_space text) [ none ↦ none | some sides ↦ both_sides sides ]
    ]

-- The fields of `cdbg_t` that the settings change.
pub record Settings : Type 0 where
  pub language : Language
  pub print_pretty : Bool
  pub malloc_stack_logging : Bool

abbrev pub on_text : List ℕ
on_text = 111 ∷ 110 ∷ []

abbrev pub off_text : List ℕ
off_text = 111 ∷ 102 ∷ 102 ∷ []

-- "on" and "off".
unfoldable pub parse_switch : List ℕ → Option Bool
parse_switch text =
    if same_text text on_text
    then some true
    else if same_text text off_text
    then some false
    else none

unfoldable pub cmd_set_language : Settings → List ℕ → Settings × Bool
cmd_set_language s args = elim (language_parse (trim_space args)) [
  | none ↦ (s, false)
  | some lang ↦ (record s { language = lang }, true)
]

-- "pretty"
abbrev pub pretty_text : List ℕ
pretty_text = 112 ∷ 114 ∷ 101 ∷ 116 ∷ 116 ∷ 121 ∷ []

unfoldable pub cmd_set_print : Settings → List ℕ → Settings × Bool
cmd_set_print s args =
    let text = trim_space args in
    if not (begins_with pretty_text text)
    then (s, false)
    else elim (parse_switch (trim_space (drop 6 text))) [
      | none ↦ (s, false)
      | some switch ↦ (record s { print_pretty = switch }, true)
    ]

unfoldable pub cmd_set_malloc_log : Settings → List ℕ → Settings × Bool
cmd_set_malloc_log s args = elim (parse_switch (trim_space args)) [
  | none ↦ (s, false)
  | some switch ↦ (record s { malloc_stack_logging = switch }, true)
]

-- "print ", "language " and "malloc-log "
abbrev print_prefix : List ℕ
print_prefix = 112 ∷ 114 ∷ 105 ∷ 110 ∷ 116 ∷ 32 ∷ []

abbrev language_prefix : List ℕ
language_prefix = 108 ∷ 97 ∷ 110 ∷ 103 ∷ 117 ∷ 97 ∷ 103 ∷ 101 ∷ 32 ∷ []

abbrev malloc_prefix : List ℕ
malloc_prefix = 109 ∷ 97 ∷ 108 ∷ 108 ∷ 111 ∷ 99 ∷ 45 ∷ 108 ∷ 111 ∷ 103 ∷ 32 ∷ []

-- A setting is none where the argument is an assignment.
unfoldable pub set_setting : Settings → List ℕ → Option (Settings × Bool)
set_setting s text =
    if begins_with print_prefix text
    then some (cmd_set_print s (drop 6 text))
    else if begins_with language_prefix text
    then some (cmd_set_language s (drop 9 text))
    else if begins_with malloc_prefix text
    then some (cmd_set_malloc_log s (drop 11 text))
    else none

module _ (parse : List ℕ → Option Expr) (strtol : List ℕ → Option ℕ × List ℕ) where
  module _ (o : Outside) (k : Kernel) (syms : Syms) where
    -- With the registers as they have been read.
    unfoldable pub expr_eval : Language → Cdbg → k.World → List ℕ → Cdbg × Evaluated ExprResult
    expr_eval lang d w text =
        let (d', read) = refresh_regs k d w in
        if not (language_check_expr lang)
        then (d, fails)
        else if not read
        then (d', fails)
        else elim (parse text) [ none ↦ (d', fails) | some e ↦ (d', eval_value o k d' syms w e) ]

    -- Where the left side is, and its size.
    unfoldable pub resolve_set_lhs : Cdbg → k.World → List ℕ → Cdbg × Evaluated (ℕ × ℕ)
    resolve_set_lhs d w lhs =
        let (d', read) = refresh_regs k d w in
        if not read
        then (d', fails)
        else if begins_with (38 ∷ []) lhs
        then (d', fails)
        else elim (parse lhs) [
          | none ↦ (d', fails)
          | some e ↦ (
            d',
            expr_eval_lvalue o k d' syms w e >>= λ (lv, whole_struct).
                if whole_struct then fails else value (lv.addr, lv.size),
          )
        ]

    -- What a command leaves: its end is undefined where the evaluation is.
    abbrev pub Assigned : Type 0
    Assigned = Cdbg × k.World × Evaluated Unit

    unfoldable pub set_register : Cdbg → k.World → List ℕ → ExprResult → Assigned
    set_register d w name result =
        let (d', read) = refresh_regs k d w in
        let (regs, w', done) =
          regs_set_by_name strtol k w d'.pid d'.current_tid d'.regs name result.value in
        if not read
        then (d', w, fails)
        else (record d' { regs = regs }, w', if done then value tt else fails)

    unfoldable pub set_memory : Cdbg → k.World → List ℕ → ℕ → Assigned
    set_memory d w lhs v =
        let (d', place) = resolve_set_lhs d w lhs in
        elim place as (λ _. Cdbg × k.World × Evaluated Unit) [
          | fails ↦ (d', w, fails)
          | undefined ↦ (d', w, undefined)
          | value (addr, size) ↦
              let (w', done) = write_scalar_value k w d'.pid addr size v in
              (d', w', if done then value tt else fails)
        ]

    -- An assignment: of a register behind a '$', or of what the left side is in memory.
    unfoldable pub assign : Language → Cdbg → k.World → List ℕ → List ℕ → Assigned
    assign lang d w lhs rhs =
        let (d', result) = expr_eval lang d w rhs in
        if begins_with (38 ∷ []) lhs || not (language_check_expr lang)
        then (d, w, fails)
        else elim result as (λ _. Cdbg × k.World × Evaluated Unit) [
          | fails ↦ (d', w, fails)
          | undefined ↦ (d', w, undefined)
          | value r ↦
              if r.is_address
              then (d', w, fails)
              else if begins_with (36 ∷ []) lhs
              then set_register d' w (drop 1 lhs) r
              else set_memory d' w lhs r.value
        ]

    unfoldable pub cmd_set : Settings → Cdbg → k.World → List ℕ → Settings × Assigned
    cmd_set s d w args =
        let text = trim_space args in
        elim (set_setting s text) [
          | some (s', done) ↦ (s', (d, w, if done then value tt else fails))
          | none ↦ elim (split_assignment text) [
            | none ↦ (s, (d, w, fails))
            | some (lhs, rhs) ↦ (s, assign s.language d w lhs rhs)
          ]
        ]
