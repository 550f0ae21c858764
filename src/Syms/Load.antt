-- ===== src/Syms/Load.antt =====
-- The part of src/syms.c that reads symbols: `syms_load_macho`, `syms_load_from_nm` and `cdbg_syms_load`. The
-- structures of <mach-o/nlist.h> and the pointers into a file are as in the readers of Mach-O files.
use macos_c_debugger_arm.Dwarf.Program.{drop}
use macos_c_debugger_arm.Dwarf.Tables.{text_at}
use macos_c_debugger_arm.Macho.{field, commands_of, macho_text_vmaddr}
use macos_c_debugger_arm.Objects.{Host, path_max, dsym_object_path, nm_text, silent_text}
use macos_c_debugger_arm.Prelude.{
  ℕ, zero, suc, ◌+◌, ◌*◌, Bool, true, false, not, ◌&&◌, ◌||◌, Option, none, some, List, [], ◌∷◌,
  ◌++◌, ◌==◌, ltb, leb, if◌then◌else◌, length, bit_and, Evaluated, value, fails, undefined, ◌>>=◌,
}
use macos_c_debugger_arm.Syms.{Syms, nlist_type_char, syms_push}

-- The last command that is LC_SYMTAB, from its first byte on.
unfoldable pub symtab_loop : ℕ → List ℕ → Option (List ℕ) → Evaluated (Option (List ℕ))
symtab_loop zero bs symtab = value symtab
symtab_loop (suc n) bs symtab =
    if ltb (length bs) 8
    then value symtab
    else (field 4 0 bs >>= λ cmd.
        (field 4 4 bs >>= λ cmdsize.
        symtab_loop n (drop cmdsize bs) (if cmd == 2 then some bs else symtab)))

-- The loop over the entries `nlist_64` from `bs` on, of 16 bytes each: `strtab` is the table of names to the end of
-- the file. N_STAB is 0xe0.
unfoldable pub symbols_loop : ℕ → ℕ → List ℕ → List ℕ → Syms → Evaluated Syms
symbols_loop zero strsize strtab bs syms = value syms
symbols_loop (suc n) strsize strtab bs syms = field 1 4 bs >>= λ type.
    if not (bit_and type 0xe0 == 0)
    then symbols_loop n strsize strtab (drop 16 bs) syms
    else (field 4 0 bs >>= λ strx.
        if leb strsize strx
        then symbols_loop n strsize strtab (drop 16 bs) syms
        else (field 8 8 bs >>= λ address.
            (text_at (drop strx strtab) >>= λ name.
            symbols_loop n strsize strtab (drop 16 bs)
              (syms_push syms address (nlist_type_char type) name))))

-- The symbols of a command LC_SYMTAB.
unfoldable pub load_symtab : List ℕ → List ℕ → Syms → Evaluated Syms
load_symtab file symtab syms = field 4 12 symtab >>= λ nsyms.
    if nsyms == 0
    then fails
    else (field 4 8 symtab >>= λ symoff.
        if ltb (length file) (symoff + nsyms * 16)
        then fails
        else (field 4 16 symtab >>= λ stroff.
            (field 4 20 symtab >>= λ strsize.
            if ltb (length file) (stroff + strsize)
            then fails
            else symbols_loop nsyms strsize (drop stroff file) (drop symoff file) syms)))

-- Fails where there is no symbol; the table is then as it was.
unfoldable pub syms_load_macho : List ℕ → Syms → Evaluated Syms
syms_load_macho file syms = commands_of file >>= λ found. elim found [
  | none ↦ fails
  | some (ncmds, bs) ↦ symtab_loop ncmds bs none >>= λ symtab. elim symtab [
    | none ↦ fails
    | some command ↦ load_symtab file command syms >>= λ loaded.
        if length loaded.entries == 0 then fails else value loaded
  ]
]

unfoldable pub skip_blanks : List ℕ → List ℕ
skip_blanks [] = []
skip_blanks (c ∷ cs) = let rest = skip_blanks cs in if c == 32 || c == 9 then rest else c ∷ cs

-- A line that nm prints.
unfoldable pub push_line : Host → Syms → List ℕ → Syms
push_line host syms line = elim (host.scan_symbol line) [
  | some (addr, type, name) ↦ syms_push syms addr type name
  | none ↦ elim (host.scan_type_and_name line) [
    | some (type, name) ↦ syms_push syms 0 type name
    | none ↦ syms
  ]
]

unfoldable pub nm_line : Host → Syms → List ℕ → Syms
nm_line host syms line = elim (skip_blanks line) [
  | [] ↦ syms
  | c ∷ cs ↦ if c == 10 then syms else push_line host syms (c ∷ cs)
]

unfoldable pub nm_lines : Host → Syms → List (List ℕ) → Syms
nm_lines host syms [] = syms
nm_lines host syms (line ∷ lines) = nm_lines host (nm_line host syms line) lines

-- Whether 0 is returned, with the table.
unfoldable pub syms_load_from_nm : Host → Syms → List ℕ → Syms × Bool
syms_load_from_nm host syms path =
    let command = nm_text ++ path ++ silent_text in
    if leb (path_max + 32) (length command) then (syms, false) else elim (host.popen command) [
      | none ↦ (syms, false)
      | some (lines, closed) ↦
          let syms' = nm_lines host syms lines in (syms', closed && not (length syms'.entries == 0))
    ]

abbrev pub no_syms : Syms
no_syms = record { entries = []; slide = 0 }

-- The field `link_base` and the table, and whether 0 is returned.
pub record LoadedSyms : Type 0 where
  pub link_base : ℕ
  pub syms : Syms
  pub succeeds : Bool

unfoldable pub nm_objects : Host → Syms → List (List ℕ) → Option Syms
nm_objects host syms [] = none
nm_objects host syms (object ∷ objects) =
    let (syms', ok) = syms_load_from_nm host syms object in
    let others = nm_objects host syms' objects in if ok then some syms' else others

-- The table of a file, where its base was not known before.
unfoldable pub load_file : List ℕ → ℕ → Evaluated LoadedSyms
load_file file link_base =
    (if link_base == 0 then macho_text_vmaddr file else value link_base) >>= λ base.
    elim (syms_load_macho file no_syms) [
      | value syms ↦ value (record { link_base = base; syms = syms; succeeds = true })
      | fails ↦ value (record { link_base = base; syms = no_syms; succeeds = false })
      | undefined ↦ undefined
    ]

unfoldable pub load_files : Host → List ℕ → Option (List ℕ) → Evaluated LoadedSyms
load_files host executable dsym = elim (host.map_file executable) [
  | none ↦ value (record { link_base = 0; syms = no_syms; succeeds = false })
  | some exe ↦ load_file exe 0 >>= λ first. if first.succeeds then value first else elim dsym [
    | none ↦ value first
    | some path ↦ elim (host.map_file path) [
      | none ↦ value first
      | some object ↦ load_file object first.link_base
    ]
  ]
]

unfoldable pub cdbg_syms_load : Host → List ℕ → Evaluated LoadedSyms
cdbg_syms_load host executable =
    let dsym = dsym_object_path host executable in
    (elim (host.map_file executable) [ none ↦ value 0 | some exe ↦ macho_text_vmaddr exe ])
    >>= λ base.
        elim (nm_objects host no_syms
          (executable ∷ elim dsym [ none ↦ [] | some path ↦ path ∷ [] ])) [
            | some syms ↦ value (record { link_base = base; syms = syms; succeeds = true })
            | none ↦ load_files host executable dsym
          ]
