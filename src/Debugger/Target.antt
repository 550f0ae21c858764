-- ===== src/Debugger/Target.antt =====
-- The places and numbers that commands of src/debugger.c take as texts: `parse_u64`, the first part of `cmd_break`,
-- `resolve_dis_target`, and `cmd_examine` without what it prints. `strtoull` is the parameter `Numbers`.
pub mod Agree
mod Tests
use macos_c_debugger_arm.Debugger.Enter.{add_breakpoint}
use macos_c_debugger_arm.Debugger.State.{Cdbg, Result}
use macos_c_debugger_arm.Info.{Numbers}
use macos_c_debugger_arm.Kernel.{Kernel}
use macos_c_debugger_arm.Lineno.{
  Lineno, begins_with, resolve_break_line, lookup_next_line_after_pc, runtime_addr,
}
use macos_c_debugger_arm.Memory.{mem_read}
use macos_c_debugger_arm.Prelude.{
  ℕ, Bool, true, false, ◌||◌, Option, none, some, List, [], ◌∷◌, ◌==◌, ltb, leb, if◌then◌else◌,
  length, u32,
}
use macos_c_debugger_arm.Syms.{SymEntry, Syms, lookup_name, syms_runtime_addr}

-- strrchr with ':': what stands before the last one, and behind it.
unfoldable pub split_colon : List ℕ → Option (List ℕ × List ℕ)
split_colon [] = none
split_colon (c ∷ cs) = elim (split_colon cs) [
  | some (before, behind) ↦ some (c ∷ before, behind)
  | none ↦ if c == 58 then some ([], cs) else none
]

module _ (numbers : Numbers) where
  -- A number that is the whole text.
  unfoldable pub parse_u64 : List ℕ → Option ℕ
  parse_u64 text = elim (numbers.strtoull 0 text) [
    | none ↦ none
    | some (value, []) ↦ some value
    | some (value, c ∷ cs) ↦ none
  ]

  -- "0x" and "0X"
  abbrev pub is_hex : List ℕ → Bool
  is_hex target = begins_with (48 ∷ 120 ∷ []) target || begins_with (48 ∷ 88 ∷ []) target

  -- The command break at a file and a line: the name of the file has less than CDBG_LINENO_MAX_FILE characters, and
  -- the line is not 0; the line is cut to 32 bits.
  unfoldable pub break_file_line : Lineno → List ℕ → List ℕ → Option ℕ
  unfolding parse_u64 resolve_break_line
  break_file_line ln file line_text =
      if length file == 0 || leb 512 (length file) then none else elim (parse_u64 line_text) [
        | none ↦ none
        | some line_no ↦ if line_no == 0 then none else resolve_break_line ln file (u32 line_no)
      ]

  -- At a number: one that is no line with a place of its own is an address.
  unfoldable pub break_number : Lineno → List ℕ → ℕ → ℕ
  unfolding resolve_break_line
  break_number ln target parsed =
      if is_hex target
      then parsed
      else elim (resolve_break_line ln [] (u32 parsed)) [ some addr ↦ addr | none ↦ parsed ]

  -- At a symbol that is not undefined: the next line behind its beginning.
  unfoldable pub break_symbol : Lineno → Syms → List ℕ → Option ℕ
  unfolding lookup_name lookup_next_line_after_pc
  break_symbol ln syms target = elim (lookup_name syms target) [
    | none ↦ none
    | some sym ↦
        if sym.address == 0 || (sym.type == 85 || sym.type == 117)
        then none
        else (let addr = syms_runtime_addr syms sym.address in
            elim (lookup_next_line_after_pc ln addr) [
              | none ↦ some addr
              | some first_body_line ↦ some (runtime_addr ln first_body_line.address)
            ])
  ]

  -- At a text without a colon and something behind it, by its number.
  unfoldable pub break_plain : Lineno → Syms → List ℕ → Option ℕ → Option ℕ
  unfolding break_number break_symbol
  break_plain ln syms target (some parsed) = some (break_number ln target parsed)
  break_plain ln syms target none = break_symbol ln syms target

  -- By what stands before and behind the last colon.
  unfoldable pub break_place : Lineno → Syms → List ℕ → Option (List ℕ × List ℕ) → Option ℕ
  unfolding break_file_line break_plain parse_u64
  break_place ln syms target none = break_plain ln syms target (parse_u64 target)
  break_place ln syms target (some (file, [])) = break_plain ln syms target (parse_u64 target)
  break_place ln syms target (some (file, c ∷ cs)) = break_file_line ln file (c ∷ cs)

  -- The address of the command break.
  abbrev pub break_addr : Lineno → Syms → List ℕ → Option ℕ
  break_addr ln syms target = break_place ln syms target (split_colon target)

  -- The command dis at a file and a line.
  unfoldable pub dis_file_line : Lineno → List ℕ → List ℕ → Option ℕ
  unfolding parse_u64 resolve_break_line
  dis_file_line ln file line_text =
      if length file == 0 || leb 512 (length file) then none else elim (parse_u64 line_text) [
        | none ↦ none
        | some line_no ↦ if line_no == 0 then none else resolve_break_line ln file (u32 line_no)
      ]

  unfoldable pub dis_symbol : Syms → List ℕ → Option ℕ
  unfolding lookup_name
  dis_symbol syms target = elim (lookup_name syms target) [
    | none ↦ none
    | some sym ↦
        if sym.address == 0 || (sym.type == 85 || sym.type == 117)
        then none
        else some (syms_runtime_addr syms sym.address)
  ]

  unfoldable pub dis_plain : Lineno → Syms → List ℕ → Option ℕ → Option ℕ
  unfolding resolve_break_line dis_symbol
  dis_plain ln syms target (some parsed) =
      if parsed == 0 then none else resolve_break_line ln [] (u32 parsed)
  dis_plain ln syms target none = dis_symbol syms target

  unfoldable pub dis_place : Lineno → Syms → List ℕ → Option (List ℕ × List ℕ) → Option ℕ
  unfolding dis_file_line dis_plain parse_u64
  dis_place ln syms target none = dis_plain ln syms target (parse_u64 target)
  dis_place ln syms target (some (file, [])) = dis_plain ln syms target (parse_u64 target)
  dis_place ln syms target (some (file, c ∷ cs)) = dis_file_line ln file (c ∷ cs)

  -- The address of the command dis.
  abbrev pub resolve_dis_target : Lineno → Syms → List ℕ → Option ℕ
  resolve_dis_target ln syms target = dis_place ln syms target (split_colon target)

  module _ (k : Kernel) where
    unfoldable pub cmd_break : Lineno → Syms → Cdbg → k.World → List ℕ → Result k Bool
    cmd_break ln syms d w target = elim (break_addr ln syms target) as (λ _. Result k Bool) [
      | none ↦ (d, w, false)
      | some addr ↦ add_breakpoint k d w addr
    ]

    -- The bytes that are printed: 16, or as many as the second text says, 64 at most.
    unfoldable pub cmd_examine : Cdbg → k.World → List ℕ → Option (List ℕ) → Option (List ℕ)
    cmd_examine d w addr_text count_text = elim (parse_u64 addr_text) [
      | none ↦ none
      | some addr ↦
          elim (elim count_text as (λ _. Option ℕ) [
            | none ↦ some 16
            | some text ↦ parse_u64 text
          ]) [
            | none ↦ none
            | some count ↦
                if count == 0 || ltb 64 count then none else mem_read k w d.pid addr count
          ]
    ]
