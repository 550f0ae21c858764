-- ===== src/Info/Shown.antt =====
-- `collect_show_vars` of src/debugger.c, with `show_var_push` and `collect_globals_from_syms`: the variables that the
-- command show lists. The sum of a base and an offset is taken to fit an `int64_t`.
pub mod Unique
use macos_c_debugger_arm.Info.{
  Numbers, dwarf_line_depth, dwarf_starts_die, pc_in_range, parse_fbreg_offset, parse_addr_location,
  parse_hex_value, parse_quoted_value, subprogram_text, variable_text, parameter_text, lexical_text,
  null_text, low_pc_text, high_pc_text, location_text, name_text, type_text,
}
use macos_c_debugger_arm.Info.Locals.{or_else}
use macos_c_debugger_arm.Lineno.{has_part, same_text}
use macos_c_debugger_arm.Prelude.{
  ℕ, ◌+◌, Bool, true, false, not, ◌&&◌, ◌||◌, Option, none, some, List, [], ◌∷◌, ◌++◌, ◌==◌, leb,
  if◌then◌else◌, length, take, u64,
}
use macos_c_debugger_arm.Syms.{SymEntry, Syms, syms_runtime_addr}
use macos_c_debugger_arm.Variables.{VarBase, fb, VarInfo, Outside, complete_var_type, symbol_type}

pub data Scope : Type 0 where
  show_locals show_args show_globals : Scope

-- `cdbg_show_var_t`.
pub record ShowVar : Type 0 where
  pub name : List ℕ
  pub var : VarInfo
  pub addr : ℕ

-- `var`, `reading_formal`, `loc_fbreg` and `link_addr` of the entry that is being read.
pub record ShowDraft : Type 0 where
  pub name : List ℕ
  pub type : List ℕ
  pub base : VarBase
  pub fbreg_offset : ℕ
  pub formal : Bool
  pub loc_fbreg : Bool
  pub link_addr : ℕ

pub record ShowScan : Type 0 where
  pub in_func : Bool
  pub func_matches : Bool
  pub func_depth : ℕ
  pub func_low : ℕ
  pub func_high : ℕ
  pub in_lex_block : Bool
  pub lex_matches : Bool
  pub lex_low : ℕ
  pub lex_high : ℕ
  pub reading : Option ShowDraft

abbrev pub start_scan : ShowScan
start_scan = record {
  in_func = false;
  func_matches = false;
  func_depth = 0;
  func_low = 0;
  func_high = 0;
  in_lex_block = false;
  lex_matches = false;
  lex_low = 0;
  lex_high = 0;
  reading = none;
}

abbrev pub show_draft : Bool → ShowDraft
show_draft formal = record {
  name = [];
  type = [];
  base = fb;
  fbreg_offset = 0;
  formal = formal;
  loc_fbreg = false;
  link_addr = 0;
}

unfoldable pub show_var_name_exists : List ShowVar → List ℕ → Bool
show_var_name_exists [] name = false
show_var_name_exists (v ∷ vs) name = same_text v.name name || show_var_name_exists vs name

module _ (o : Outside) (max : ℕ) where
  unfoldable pub show_var_push : List ShowVar → List ℕ → List ℕ → ℕ → List ShowVar
  show_var_push vars name type addr =
      if length name == 0 || (leb max (length vars) || show_var_name_exists vars name)
      then vars
      else vars ++ (record { name = name; var = complete_var_type o type; addr = addr } ∷ [])

  -- One of "bBdDgGsSC".
  abbrev pub sym_is_global_data : ℕ → Bool
  sym_is_global_data type =
      type == 98
      || (type == 66
          || (type == 100
              || (type == 68
                  || (type == 103 || (type == 71 || (type == 115 || (type == 83 || type == 67)))))))

  -- The names are cut to 127 characters after they have been compared.
  unfoldable pub collect_globals_loop : Syms → List SymEntry → List ShowVar → List ShowVar
  collect_globals_loop syms [] vars = vars
  collect_globals_loop syms (e ∷ es) vars =
      let pushed =
        show_var_push vars (take 127 e.name) (symbol_type o) (syms_runtime_addr syms e.address) in
      let others = e.address == 0 || not (sym_is_global_data e.type) in
      if leb max (length vars)
      then vars
      else collect_globals_loop syms es
          (if others || show_var_name_exists vars e.name then vars else pushed)

  abbrev pub collect_globals_from_syms : Syms → List ShowVar → List ShowVar
  collect_globals_from_syms syms vars = collect_globals_loop syms syms.entries vars

  module _ (numbers : Numbers) (link_pc : ℕ) (base_addr : VarBase → ℕ) (syms : Syms)
      (scope : Scope) where
    unfoldable pub includes : ShowScan → ShowDraft → Bool
    includes s v = elim scope [
      | show_args ↦ v.formal && (s.func_matches && (s.in_func && v.loc_fbreg))
      | show_locals ↦
          not v.formal
          && (s.func_matches
              && (s.in_func && (v.loc_fbreg && (not s.in_lex_block || s.lex_matches))))
      | show_globals ↦
          not v.formal && (not s.in_func && (not s.in_lex_block && not (v.link_addr == 0)))
    ]

    unfoldable pub show_addr : ShowDraft → ℕ
    show_addr v = elim scope [
      | show_globals ↦ syms_runtime_addr syms v.link_addr
      | _ ↦ u64 (base_addr v.base + v.fbreg_offset)
    ]

    -- The entry that has been read is pushed where the scope has it.
    unfoldable pub end_entry : ShowScan → List ShowVar → List ShowVar
    end_entry s vars = elim s.reading [
      | none ↦ vars
      | some v ↦
          if not (length v.name == 0) && includes s v
          then show_var_push vars v.name v.type (show_addr v)
          else vars
    ]

    unfoldable pub show_die : List ℕ → ShowScan → ShowScan
    show_die line s =
        let depth = dwarf_line_depth line in
        if has_part subprogram_text line
        then record s {
          in_func = true;
          func_matches = false;
          func_depth = depth;
          func_low = 0;
          func_high = 0;
        }
        else if s.in_func && leb depth s.func_depth
        then record s {
          in_func = false;
          func_matches = false;
          in_lex_block = false;
          lex_matches = false;
        }
        else if s.in_func && (s.func_matches && has_part lexical_text line)
        then record s { in_lex_block = true; lex_matches = false; lex_low = 0; lex_high = 0 }
        else if s.in_func && (s.func_matches && has_part parameter_text line)
        then record s { reading = some (show_draft true) }
        else if has_part variable_text line
        then record s { reading = some (show_draft false) }
        else if s.in_lex_block && has_part null_text line
        then record s { in_lex_block = false; lex_matches = false }
        else s

    abbrev with_range : ShowScan → ℕ → ℕ → ShowScan
    with_range s low high =
        if s.in_lex_block
        then record s { lex_low = low; lex_high = high; lex_matches = pc_in_range link_pc low high }
        else record s {
          func_low = low;
          func_high = high;
          func_matches = pc_in_range link_pc low high;
        }

    abbrev low_of : ShowScan → ℕ
    low_of s = if s.in_lex_block then s.lex_low else s.func_low

    abbrev high_of : ShowScan → ℕ
    high_of s = if s.in_lex_block then s.lex_high else s.func_high

    unfoldable pub show_location : List ℕ → ShowDraft → ShowDraft
    show_location line v =
        let (base, offset) = parse_fbreg_offset numbers line in
        let based = record v { base = or_else base v.base } in
        elim offset [
          | some value ↦ record based { fbreg_offset = value; loc_fbreg = true }
          | none ↦ elim (parse_addr_location numbers line) [
            | some address ↦ record based { link_addr = address; loc_fbreg = false }
            | none ↦ based
          ]
        ]

    unfoldable pub show_draft_line : List ℕ → ShowDraft → ShowDraft
    show_draft_line line v =
        if has_part location_text line
        then show_location line v
        else if has_part name_text line
        then record v { name = or_else (parse_quoted_value 127 line) v.name }
        else if has_part type_text line
        then record v { type = or_else (parse_quoted_value 127 line) v.type }
        else v

    unfoldable pub show_attribute : List ℕ → ShowScan → ShowScan
    show_attribute line s =
        if s.in_func && has_part low_pc_text line
        then with_range s (or_else (parse_hex_value numbers line) (low_of s)) (high_of s)
        else if s.in_func && has_part high_pc_text line
        then with_range s (low_of s) (or_else (parse_hex_value numbers line) (high_of s))
        else elim s.reading [
          | none ↦ s
          | some v ↦ record s { reading = some (show_draft_line line v) }
        ]

    -- A line: at the beginning of an entry the one before it ends.
    unfoldable pub show_line : List ℕ → ShowScan × List ShowVar → ShowScan × List ShowVar
    show_line line (s, vars) =
        if dwarf_starts_die line
        then (show_attribute line (show_die line (record s { reading = none })), end_entry s vars)
        else (show_attribute line s, vars)

    unfoldable pub show_loop : List (List ℕ) → ShowScan × List ShowVar → List ShowVar
    show_loop [] (s, vars) = end_entry s vars
    show_loop (line ∷ lines) state = show_loop lines (show_line line state)

    -- What dwarfdump prints: none where the path is not known, and none within where it cannot be run.
    unfoldable pub collect_show_vars : Option (Option (List (List ℕ))) → List ShowVar
    collect_show_vars none = elim scope [
      | show_globals ↦ collect_globals_from_syms syms []
      | _ ↦ []
    ]
    collect_show_vars (some none) = []
    collect_show_vars (some (some lines)) =
        let vars = show_loop lines (start_scan, []) in
        elim scope [ show_globals ↦ collect_globals_from_syms syms vars | _ ↦ vars ]
