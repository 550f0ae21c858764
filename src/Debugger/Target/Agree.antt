-- ===== src/Debugger/Target/Agree.antt =====
-- The places that the commands break and dis of src/debugger.c make of one text.
use macos_c_debugger_arm.Debugger.Target.{
  break_place, dis_place, break_plain, dis_plain, break_number, break_symbol, dis_symbol,
  break_file_line, dis_file_line, parse_u64, is_hex, break_addr, resolve_dis_target, split_colon,
}
use macos_c_debugger_arm.Info.{Numbers}
use macos_c_debugger_arm.Lineno.{
  LineEntry, Lineno, lookup_pc, lookup_next_line_after_pc, runtime_addr, same_text,
}
use macos_c_debugger_arm.Lineno.Best.{Among}
use macos_c_debugger_arm.Lineno.Lookup.{
  at, lookup_next_line_after_pc_lem, lookup_next_line_after_pc-none,
  lookup_next_line_after_pc_nowhere,
}
use macos_c_debugger_arm.Prelude.{
  ℕ, ◌≤◌, ◌<◌, ◌≡◌, ◌≢◌, ◌||◌, ◌∙◌, sym, subst, refl, Bool, true, false, Option, none, some, List,
  [], ◌∷◌, All, ◌==◌, inl, inr, Bool-cases, arith,
}
use macos_c_debugger_arm.Syms.{Syms, SymEntry, lookup_name, syms_runtime_addr}

abbrev pub is_none : Option ℕ → Bool
is_none none = true
is_none (some number) = false

-- A text that is neither a file with a line behind the last colon nor a number is the name of a symbol.
abbrev pub is_symbol : Option (List ℕ × List ℕ) → Option ℕ → Bool
is_symbol none number = is_none number
is_symbol (some (file, [])) number = is_none number
is_symbol (some (file, c ∷ cs)) number = false

none-≢ : {A : Type 0} {a : A} → none ≡ some a → ⊥
none-≢ e = cc

module _ (ln : Lineno) (addr : ℕ) where
  -- Where the body of a function at `addr` begins: the line that comes next in its file; or `addr` itself, where
  -- there is no other line behind it, or no line at it.
  pub data IsBody : ℕ → Type 0 where
    next_line :
        {current e : LineEntry}
        → lookup_pc ln addr ≡ some current
        → Among e ln.entries
        → addr < at ln e
        → same_text e.file current.file ≡ true
        → e.line ≢ current.line
        → All
            (λ other.
              addr < at ln other
              → same_text other.file current.file ≡ true
              → other.line ≢ current.line
              → e.address ≤ other.address)
            ln.entries
        → IsBody (at ln e)
    one_line :
        {current : LineEntry}
        → lookup_pc ln addr ≡ some current
        → All
            (λ other.
              addr < at ln other
              → same_text other.file current.file ≡ true
              → other.line ≡ current.line)
            ln.entries
        → IsBody addr
    no_line : lookup_pc ln addr ≡ none → IsBody addr

  next-IsBody :
      (current e : LineEntry)
      → lookup_pc ln addr ≡ some current
      → lookup_next_line_after_pc ln addr ≡ some e
      → IsBody (at ln e)
  next-IsBody current e now found =
      let (among, above, same, other, least) =
        lookup_next_line_after_pc_lem ln addr current e now found in
      next_line now among above same other least

  one-IsBody :
      (pc : Option LineEntry)
      → lookup_pc ln addr ≡ pc
      → lookup_next_line_after_pc ln addr ≡ none
      → IsBody addr
  one-IsBody none now nothing = no_line now
  one-IsBody (some current) now nothing =
      one_line now (lookup_next_line_after_pc-none ln addr current now nothing)

  found-IsBody :
      (pc : Option LineEntry) (e : LineEntry)
      → lookup_pc ln addr ≡ pc
      → lookup_next_line_after_pc ln addr ≡ some e
      → IsBody (at ln e)
  found-IsBody none e now found =
      absurd (none-≢ (sym (lookup_next_line_after_pc_nowhere ln addr now) ∙ found))
  found-IsBody (some current) e now found = next-IsBody current e now found

  -- The address that break takes of a text that dis takes to be `addr`.
  abbrev pub Begins : Bool → ℕ → Type 0
  Begins true b = IsBody b
  Begins false b = b ≡ addr

  abbrev Takes : Bool → Option ℕ → Type 0
  Takes symbol r = (b : ℕ) × (r ≡ some b) × Begins symbol b

  -- With the line that comes next.
  abbrev place_of : ℕ → Option LineEntry → Option ℕ
  place_of a next = elim next [ none ↦ some a | some e ↦ some (runtime_addr ln e.address) ]

  body-Takes :
      (next : Option LineEntry)
      → lookup_next_line_after_pc ln addr ≡ next
      → Takes true (place_of addr next)
  body-Takes none nothing = (addr, refl, one-IsBody (lookup_pc ln addr) refl nothing)
  body-Takes (some e) found = (at ln e, refl, found-IsBody (lookup_pc ln addr) e refl found)

  module _ (numbers : Numbers) (syms : Syms) (target : List ℕ) where
    symbol-Takes :
        (entry : Option SymEntry)
        → lookup_name syms target ≡ entry
        → dis_symbol numbers syms target ≡ some addr
        → Takes true (break_symbol numbers ln syms target)
    unfolding dis_symbol break_symbol
    symbol-Takes none unknown h = absurd (none-≢ (rw (dis_symbol, unknown) at h))
    symbol-Takes (some s) known h =
        elim (Bool-cases (s.address == 0 || (s.type == 85 || s.type == 117))) [
          | inl e ↦ absurd (none-≢ (rw (dis_symbol, known, e) at h))
          | inr e ↦
              let here : some (syms_runtime_addr syms s.address) ≡ some addr =
                rw (dis_symbol, known, e) at h in
              let same : syms_runtime_addr syms s.address ≡ addr = cc in
              rw (break_symbol, known, e)
                (subst (λ a. Takes true (place_of a (lookup_next_line_after_pc ln a))) (sym same)
                  (body-Takes (lookup_next_line_after_pc ln addr) refl))
        ]

    plain-Takes :
        (number : Option ℕ)
        → is_hex numbers target ≡ false
        → dis_plain numbers ln syms target number ≡ some addr
        → Takes (is_none number) (break_plain numbers ln syms target number)
    unfolding dis_plain break_plain break_number
    plain-Takes none no_hex h = symbol-Takes (lookup_name syms target) refl h
    plain-Takes (some parsed) no_hex h = elim (Bool-cases (parsed == 0)) [
      | inl e ↦ absurd (none-≢ (rw e at h))
      | inr e ↦ (addr, rw (no_hex, rw e at h) refl, refl)
    ]

    file-Takes :
        (file line_text : List ℕ)
        → dis_file_line numbers ln file line_text ≡ some addr
        → break_file_line numbers ln file line_text ≡ some addr
    unfolding dis_file_line break_file_line
    file-Takes file line_text h = ground (arith, h)

    place-Takes :
        (parts : Option (List ℕ × List ℕ))
        → is_hex numbers target ≡ false
        → dis_place numbers ln syms target parts ≡ some addr
        → Takes
            (is_symbol parts (parse_u64 numbers target))
            (break_place numbers ln syms target parts)
    unfolding dis_place break_place
    place-Takes none no_hex h = plain-Takes (parse_u64 numbers target) no_hex h
    place-Takes (some (file, [])) no_hex h = plain-Takes (parse_u64 numbers target) no_hex h
    place-Takes (some (file, c ∷ cs)) no_hex h = (addr, file-Takes file (c ∷ cs) h, refl)

-- For a text that does not begin with 0x or 0X, where the command dis finds an address, the command break
-- finds one too: the same one for a file and a line or for a line; for a symbol, that of the entry whose
-- address in the table is lowest among those above the address in the same file with another line than the
-- one at the address, and the same one where there is no such entry or no line at the address.
pub break_addr-resolve_dis_target :
    (numbers : Numbers) (ln : Lineno) (syms : Syms) (target : List ℕ) (addr : ℕ)
    → is_hex numbers target ≡ false
    → resolve_dis_target numbers ln syms target ≡ some addr
    → (b : ℕ) × (break_addr numbers ln syms target ≡ some b)
      × Begins ln addr (is_symbol (split_colon target) (parse_u64 numbers target)) b
break_addr-resolve_dis_target numbers ln syms target addr no_hex h =
    place-Takes ln addr numbers syms target (split_colon target) no_hex h
