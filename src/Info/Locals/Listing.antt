-- ===== src/Info/Locals/Listing.antt =====
-- `find_local_var` of src/debugger.c on the listing of one function.
use macos_c_debugger_arm.Info.{
  Numbers, dwarf_line_depth, dwarf_starts_die, pc_in_range, parse_fbreg_offset, parse_hex_value,
  parse_quoted_value, subprogram_text, variable_text, parameter_text, low_pc_text, high_pc_text,
  location_text, name_text, type_text,
}
use macos_c_debugger_arm.Info.Locals.{
  Draft, empty_draft, Scan, var_ready, name_or_type_line, located, draft_line, attribute_line,
  die_line, locals_loop, find_local_draft,
}
use macos_c_debugger_arm.Lineno.{has_part}
use macos_c_debugger_arm.Prelude.{
  ℕ, ◌≡◌, refl, sym, ap, ◌∙◌, Bool, true, false, ◌||◌, Option, none, some, List, [], ◌∷◌, leb,
  if◌then◌else◌, All, inl, inr, Bool-cases,
}

-- The four lines of a variable, and what they say.
pub record VarLines : Type 0 where
  pub die : List ℕ
  pub location : List ℕ
  pub name_line : List ℕ
  pub type_line : List ℕ
  pub draft : Draft

abbrev pub lines_of : VarLines → List (List ℕ) → List (List ℕ)
lines_of v rest = v.die ∷ v.location ∷ v.name_line ∷ v.type_line ∷ rest

abbrev pub all_lines : List VarLines → List (List ℕ)
all_lines [] = []
all_lines (v ∷ vs) = lines_of v (all_lines vs)

-- The line has none of the words that begin an entry or give the range of a function.
abbrev pub IsPlain : List ℕ → Type 0
IsPlain line =
    (dwarf_starts_die line ≡ false)
    × (has_part low_pc_text line ≡ false)
    × (has_part high_pc_text line ≡ false)

-- The first of the variables that is ready.
abbrev pub first_ready : List ℕ → List VarLines → Option Draft
first_ready name [] = none
first_ready name (v ∷ vs) =
    let rest = first_ready name vs in if var_ready name v.draft then some v.draft else rest

module _ (numbers : Numbers) where
  abbrev pub IsLocation : List ℕ → Draft → Type 0
  IsLocation line d =
      IsPlain line
      × (has_part location_text line ≡ true)
      × (parse_fbreg_offset numbers line ≡ (some d.base, some d.fbreg_offset))

  abbrev pub IsName : List ℕ → Draft → Type 0
  IsName line d =
      IsPlain line
      × (has_part location_text line ≡ false)
      × (has_part name_text line ≡ true)
      × (parse_quoted_value 127 line ≡ some d.name)

  abbrev pub IsType : List ℕ → Draft → Type 0
  IsType line d =
      IsPlain line
      × (has_part location_text line ≡ false)
      × (has_part name_text line ≡ false)
      × (has_part type_text line ≡ true)
      × (parse_quoted_value 127 line ≡ some d.type)

  -- The line of a variable or an argument, deeper than its function.
  abbrev pub IsVarDie : ℕ → List ℕ → Type 0
  IsVarDie depth line =
      (dwarf_starts_die line ≡ true)
      × (leb (dwarf_line_depth line) depth ≡ false)
      × (has_part subprogram_text line ≡ false)
      × ((has_part variable_text line || has_part parameter_text line) ≡ true)
      × (has_part low_pc_text line ≡ false)
      × (has_part high_pc_text line ≡ false)

  abbrev pub AreVarLines : ℕ → VarLines → Type 0
  AreVarLines depth v =
      IsVarDie depth v.die
      × IsLocation v.location v.draft
      × IsName v.name_line v.draft
      × IsType v.type_line v.draft
      × (v.draft.has_location ≡ true)

  module _ (link_pc : ℕ) (name : List ℕ) (depth low high : ℕ) where
    -- Within the function, whose range has the program counter or not.
    abbrev inside : Bool → Option Draft → Scan
    inside matches r = record {
      in_func = true;
      func_matches = matches;
      func_depth = depth;
      func_low = low;
      func_high = high;
      reading = r;
    }

    attribute_line-location :
        (line : List ℕ) (d var : Draft)
        → IsLocation line d
        → attribute_line numbers link_pc line (inside true (some var))
          ≡ inside true (
              some
                (record var { base = d.base; fbreg_offset = d.fbreg_offset; has_location = true }))
    unfolding attribute_line draft_line located
    attribute_line-location line d var ((no_die, no_low, no_high), has, parsed) =
        rw (attribute_line, no_low, no_high, draft_line, has, parsed) refl

    attribute_line-name :
        (line : List ℕ) (d var : Draft)
        → IsName line d
        → attribute_line numbers link_pc line (inside true (some var))
          ≡ inside true (some (record var { name = d.name }))
    unfolding attribute_line draft_line name_or_type_line
    attribute_line-name line d var ((no_die, no_low, no_high), no_location, has, quoted) =
        rw
          (attribute_line, no_low, no_high, draft_line, no_location, name_or_type_line, has, quoted)
          refl

    attribute_line-type :
        (line : List ℕ) (d var : Draft)
        → IsType line d
        → attribute_line numbers link_pc line (inside true (some var))
          ≡ inside true (some (record var { type = d.type }))
    unfolding attribute_line draft_line name_or_type_line
    attribute_line-type line d var ((no_die, no_low, no_high), no_location, no_name, has, quoted) =
        rw
          (
            attribute_line, no_low, no_high, draft_line, no_location, name_or_type_line, no_name,
            has, quoted,
          )
          refl

    attribute_line-nothing :
        (line : List ℕ)
        → has_part low_pc_text line ≡ false
        → has_part high_pc_text line ≡ false
        → attribute_line numbers link_pc line (inside false none) ≡ inside false none
    unfolding attribute_line
    attribute_line-nothing line no_low no_high = rw (attribute_line, no_low, no_high) refl

    die_line-variable :
        (line : List ℕ)
        → IsVarDie depth line
        → die_line numbers link_pc line (inside true none) ≡ inside true (some empty_draft)
    unfolding die_line
    die_line-variable line (die, deeper, no_function, variable, no_low, no_high) =
        rw (die_line, deeper, no_function, variable) refl

    die_line-outside :
        (line : List ℕ)
        → IsVarDie depth line
        → die_line numbers link_pc line (inside false none) ≡ inside false none
    unfolding die_line
    die_line-outside line (die, deeper, no_function, variable, no_low, no_high) =
        rw (die_line, deeper, no_function) (attribute_line-nothing line no_low no_high)

    -- What has been read, if it is ready, and what follows.
    abbrev pub ready_or : Option Draft → Option Draft → Option Draft
    ready_or none rest = rest
    ready_or (some var) rest = if var_ready name var then some var else rest

    abbrev loop : Scan → List (List ℕ) → Option Draft
    loop s lines = locals_loop numbers link_pc name s lines

    locals_loop-plain :
        (s s' : Scan) (line : List ℕ) (lines : List (List ℕ))
        → dwarf_starts_die line ≡ false
        → attribute_line numbers link_pc line s ≡ s'
        → loop s (line ∷ lines) ≡ loop s' lines
    unfolding locals_loop
    locals_loop-plain s s' line lines no_die h = rw (locals_loop, no_die, h) refl

    locals_loop-die :
        (matches : Bool) (r : Option Draft) (line : List ℕ) (lines : List (List ℕ))
        → dwarf_starts_die line ≡ true
        → locals_loop numbers link_pc name (inside matches r) (line ∷ lines)
          ≡ ready_or r (
              locals_loop numbers link_pc name
                (die_line numbers link_pc line (inside matches none))
                lines)
    unfolding locals_loop
    locals_loop-die matches none line lines h = rw (locals_loop, h) refl
    locals_loop-die matches (some var) line lines h = rw (locals_loop, h) refl

    -- The lines of a variable are read into its draft.
    locals_loop-lines_of :
        (v : VarLines) (r : Option Draft) (rest : List (List ℕ))
        → AreVarLines depth v
        → locals_loop numbers link_pc name (inside true r) (lines_of v rest)
          ≡ ready_or r (locals_loop numbers link_pc name (inside true (some v.draft)) rest)
    locals_loop-lines_of v r rest (die, location, named, typed, has_location) =
        let d = v.draft in
        let var1 : Draft = record empty_draft {
          base = d.base;
          fbreg_offset = d.fbreg_offset;
          has_location = true;
        } in
        let var2 : Draft = record var1 { name = d.name } in
        locals_loop-die true r v.die (v.location ∷ v.name_line ∷ v.type_line ∷ rest) die.0
        ∙ ap (ready_or r) (
            ap (λ s. loop s (v.location ∷ v.name_line ∷ v.type_line ∷ rest))
              (die_line-variable v.die die)
            ∙ locals_loop-plain (inside true (some empty_draft)) (inside true (some var1))
                v.location (v.name_line ∷ v.type_line ∷ rest) location.0.0
                (attribute_line-location v.location d empty_draft location)
            ∙ locals_loop-plain (inside true (some var1)) (inside true (some var2)) v.name_line
                (v.type_line ∷ rest) named.0.0 (attribute_line-name v.name_line d var1 named)
            ∙ locals_loop-plain (inside true (some var2))
                (inside true (some (record var2 { type = d.type }))) v.type_line rest typed.0.0
                (attribute_line-type v.type_line d var2 typed)
            ∙ ap (λ b. loop (inside true (some (record d { has_location = b }))) rest)
                (sym has_location))

    locals_loop-matching :
        (vs : List VarLines) (r : Option Draft)
        → All (AreVarLines depth) vs
        → locals_loop numbers link_pc name (inside true r) (all_lines vs)
          ≡ ready_or r (first_ready name vs)
    unfolding locals_loop
    locals_loop-matching [] none h = refl
    locals_loop-matching [] (some var) h = refl
    locals_loop-matching (v ∷ vs) r (h, hs) =
        locals_loop-lines_of v r (all_lines vs) h
        ∙ ap (ready_or r) (locals_loop-matching vs (some v.draft) hs)

    locals_loop-elsewhere :
        (vs : List VarLines)
        → All (AreVarLines depth) vs
        → locals_loop numbers link_pc name (inside false none) (all_lines vs) ≡ none
    unfolding locals_loop
    locals_loop-elsewhere [] h = refl
    locals_loop-elsewhere (v ∷ vs) ((die, location, named, typed, has_location), hs) =
        let nothing = λ (line : List ℕ) (lines : List (List ℕ)) (plain : IsPlain line).
          locals_loop-plain (inside false none) (inside false none) line lines plain.0
            (attribute_line-nothing line plain.1 plain.2) in
        let rest = all_lines vs in
        locals_loop-die false none v.die (v.location ∷ v.name_line ∷ v.type_line ∷ rest) die.0
        ∙ ap (λ s. loop s (v.location ∷ v.name_line ∷ v.type_line ∷ rest))
            (die_line-outside v.die die)
        ∙ nothing v.location (v.name_line ∷ v.type_line ∷ rest) location.0
        ∙ nothing v.name_line (v.type_line ∷ rest) named.0
        ∙ nothing v.type_line rest typed.0
        ∙ locals_loop-elsewhere vs hs

-- The lines that begin a function and give its range.
pub record FuncLines : Type 0 where
  pub die : List ℕ
  pub low_line : List ℕ
  pub high_line : List ℕ
  pub low : ℕ
  pub high : ℕ

abbrev pub AreFuncLines : Numbers → FuncLines → Type 0
AreFuncLines numbers f =
    (dwarf_starts_die f.die ≡ true)
    × (has_part subprogram_text f.die ≡ true)
    × (dwarf_starts_die f.low_line ≡ false)
    × (has_part low_pc_text f.low_line ≡ true)
    × (parse_hex_value numbers f.low_line ≡ some f.low)
    × (dwarf_starts_die f.high_line ≡ false)
    × (has_part low_pc_text f.high_line ≡ false)
    × (has_part high_pc_text f.high_line ≡ true)
    × (parse_hex_value numbers f.high_line ≡ some f.high)

abbrev pub listing : FuncLines → List VarLines → List (List ℕ)
listing f vs = f.die ∷ f.low_line ∷ f.high_line ∷ all_lines vs

-- After the first three lines the range is known.
find_local_draft-function :
    (numbers : Numbers) (link_pc : ℕ) (name : List ℕ) (f : FuncLines) (lines : List (List ℕ))
    → AreFuncLines numbers f
    → find_local_draft numbers (f.die ∷ f.low_line ∷ f.high_line ∷ lines) link_pc name
      ≡ locals_loop numbers link_pc name
          (inside numbers link_pc name
            (dwarf_line_depth f.die)
            f.low
            f.high
            (pc_in_range link_pc f.low f.high)
            none)
          lines
unfolding find_local_draft locals_loop die_line attribute_line
find_local_draft-function numbers link_pc name f lines
      (die, function, low_plain, low, low_value, high_plain, not_low, high, high_value) =
    rw
      (
        find_local_draft, locals_loop, die, function, low_plain, low, low_value, high_plain,
        not_low, high, high_value,
      )
      refl

-- In the lines of one function, its range and its variables, each with the four lines of its entry, the
-- variable that is found for a name is the first one that is ready for it if the program counter is in the
-- range of the function, and otherwise there is none.
pub find_local_draft-listing :
    (numbers : Numbers) (link_pc : ℕ) (name : List ℕ) (f : FuncLines) (vs : List VarLines)
    → AreFuncLines numbers f
    → All (AreVarLines numbers (dwarf_line_depth f.die)) vs
    → find_local_draft numbers (listing f vs) link_pc name
      ≡ (if pc_in_range link_pc f.low f.high then first_ready name vs else none)
unfolding find_local_draft
find_local_draft-listing numbers link_pc name f vs h hs =
    find_local_draft-function numbers link_pc name f (all_lines vs) h
    ∙ elim (Bool-cases (pc_in_range link_pc f.low f.high)) [
      | inl e ↦ rw e (
          locals_loop-matching numbers link_pc name (dwarf_line_depth f.die) f.low f.high vs none
            hs)
      | inr e ↦
          rw e
            (locals_loop-elsewhere numbers link_pc name (dwarf_line_depth f.die) f.low f.high vs hs)
    ]
