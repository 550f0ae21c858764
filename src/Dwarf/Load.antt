-- ===== src/Dwarf/Load.antt =====
-- `lineno_load_from_dwarfdump` and `cdbg_lineno_load` of src/lineno.c: the lines that dwarfdump prints, or else the
-- section of the object. What the structure holds after a return of -1 is not modelled. A file is taken not to
-- change between two calls of map_file.

pub mod Rows
mod Tests
use macos_c_debugger_arm.Dwarf.Program.{drop}
use macos_c_debugger_arm.Dwarf.Units.{
  LineTable, TableOutcome, loaded, rejected, broken, unfinished, parse_line_table,
}
use macos_c_debugger_arm.Lineno.{LineEntry, begins_with}
use macos_c_debugger_arm.Macho.{macho_text_vmaddr, macho_find_section}
use macos_c_debugger_arm.Objects.{Host, path_max, dsym_object_path, dwarfdump_text, silent_text}
use macos_c_debugger_arm.Prelude.{
  ℕ, ◌+◌, Bool, true, false, not, ◌&&◌, ◌||◌, Option, none, some, List, [], ◌∷◌, ◌++◌, ◌==◌, ltb,
  leb, if◌then◌else◌, length, take, Evaluated, value, fails, undefined,
}

-- strstr: the text from the first place of the part on.
unfoldable pub find_part : List ℕ → List ℕ → Option (List ℕ)
find_part part [] = if length part == 0 then some [] else none
find_part part (c ∷ cs) =
    let later = find_part part cs in if begins_with part (c ∷ cs) then some (c ∷ cs) else later

-- strchr with '"': what stands before it, and behind it.
unfoldable pub split_quote : List ℕ → Option (List ℕ × List ℕ)
split_quote [] = none
split_quote (c ∷ cs) =
    let later = split_quote cs in
    if c == 34
    then some ([], cs)
    else elim later [ none ↦ none | some (before, behind) ↦ some (c ∷ before, behind) ]

-- "include_directories" and "name: \""
abbrev pub dir_marker : List ℕ
dir_marker =
    105 ∷ 110 ∷ 99 ∷ 108 ∷ 117 ∷ 100 ∷ 101 ∷ 95 ∷ 100 ∷ 105 ∷ 114 ∷ 101 ∷ 99 ∷ 116 ∷ 111 ∷ 114 ∷ 105
    ∷ 101 ∷ 115 ∷ []

abbrev pub name_marker : List ℕ
name_marker = 110 ∷ 97 ∷ 109 ∷ 101 ∷ 58 ∷ 32 ∷ 34 ∷ []

-- "<unknown>"
abbrev pub unknown_text : List ℕ
unknown_text = 60 ∷ 117 ∷ 110 ∷ 107 ∷ 110 ∷ 111 ∷ 119 ∷ 110 ∷ 62 ∷ []

-- The variables of the loop over the lines.
pub record Dump : Type 0 where
  pub current_dir : List ℕ
  pub current_file : List ℕ
  pub entries : List LineEntry

unfoldable pub has_slash : List ℕ → Bool
has_slash [] = false
has_slash (c ∷ cs) = c == 47 || has_slash cs

unfoldable pub full_path : Dump → List ℕ
full_path dump = elim dump.current_file [
  | [] ↦ unknown_text
  | c ∷ cs ↦
      if has_slash (c ∷ cs) || length dump.current_dir == 0
      then c ∷ cs
      else take 511 (dump.current_dir ++ (47 ∷ c ∷ cs))
]

-- A line with the directories: the text between the first two quotes.
unfoldable pub dir_line : Dump → List ℕ → Dump
dir_line dump marked = elim (split_quote marked) [
  | none ↦ dump
  | some (before, quoted) ↦ elim (split_quote quoted) [
    | none ↦ dump
    | some (text, behind) ↦ record dump { current_dir = take 511 text }
  ]
]

unfoldable pub name_line : Dump → List ℕ → Dump
name_line dump marked = elim (split_quote (drop 7 marked)) [
  | none ↦ dump
  | some (text, behind) ↦ record dump { current_file = take 511 text }
]

-- A row begins with "0x".
unfoldable pub row_line : Host → Dump → List ℕ → Dump
row_line host dump line =
    if begins_with (48 ∷ 120 ∷ []) line
    then (elim (host.scan_row line) [
      | none ↦ dump
      | some (addr, line_no, column) ↦ record dump {
        entries =
            dump.entries
            ++ (record { address = addr; line = line_no; column = column; file = full_path dump }
                ∷ []);
      }
    ])
    else dump

unfoldable pub dump_line : Host → Dump → List ℕ → Dump
dump_line host dump line = elim (find_part dir_marker line) [
  | some marked ↦ dir_line dump marked
  | none ↦ elim (find_part name_marker line) [
    | some marked ↦ name_line dump marked
    | none ↦ row_line host dump line
  ]
]

unfoldable pub dump_lines : Host → Dump → List (List ℕ) → Dump
dump_lines host dump [] = dump
dump_lines host dump (line ∷ lines) = dump_lines host (dump_line host dump line) lines

abbrev pub no_dump : Dump
no_dump = record { current_dir = []; current_file = []; entries = [] }

-- None for -1.
unfoldable pub lineno_load_from_dwarfdump : Host → List ℕ → Option LineTable
lineno_load_from_dwarfdump host debug_obj =
    let command = dwarfdump_text ++ debug_obj ++ silent_text in
    if leb (path_max + 64) (length command) then none else elim (host.popen command) [
      | none ↦ none
      | some (lines, closed) ↦
          let dump = dump_lines host no_dump lines in
          if closed && not (length dump.entries == 0)
          then some (record { entries = dump.entries; comp_dir = dump.current_dir })
          else none
    ]

-- "__DWARF", "__debug_line" and "__debug_line_str"
abbrev pub dwarf_name : List ℕ
dwarf_name = 95 ∷ 95 ∷ 68 ∷ 87 ∷ 65 ∷ 82 ∷ 70 ∷ []

abbrev pub debug_line_name : List ℕ
debug_line_name = 95 ∷ 95 ∷ 100 ∷ 101 ∷ 98 ∷ 117 ∷ 103 ∷ 95 ∷ 108 ∷ 105 ∷ 110 ∷ 101 ∷ []

abbrev pub debug_line_str_name : List ℕ
debug_line_str_name =
    95 ∷ 95 ∷ 100 ∷ 101 ∷ 98 ∷ 117 ∷ 103 ∷ 95 ∷ 108 ∷ 105 ∷ 110 ∷ 101 ∷ 95 ∷ 115 ∷ 116 ∷ 114 ∷ []

pub record LoadedLines : Type 0 where
  pub link_base : ℕ
  pub exe_dir : List ℕ
  pub table : LineTable

-- 0 with what is loaded, or -1; or as the loop over the units ends.
pub data LinesOutcome : Type 0 where
  has_lines : LoadedLines → LinesOutcome
  has_none faulty endless : LinesOutcome

-- The section of names, empty where the pointer stays NULL.
unfoldable pub line_str_of : List ℕ → Option (ℕ × ℕ) → List ℕ
line_str_of object none = []
line_str_of object (some (offset, size)) =
    if leb (offset + size) (length object) then take size (drop offset object) else []

-- parse_line_table on the section, with what a table that is not empty is returned with.
unfoldable pub load_section : ℕ → List ℕ → List ℕ → List ℕ → LinesOutcome
load_section link_base exe_dir line_str section =
    elim (parse_line_table line_str (record { entries = []; comp_dir = [] }) section) [
      | loaded table ↦
          if length table.entries == 0
          then LinesOutcome.has_none
          else LinesOutcome.has_lines
              (record { link_base = link_base; exe_dir = exe_dir; table = table })
      | rejected table ↦ LinesOutcome.has_none
      | broken ↦ LinesOutcome.faulty
      | unfinished ↦ LinesOutcome.endless
    ]

unfoldable pub load_object : ℕ → List ℕ → List ℕ → LinesOutcome
load_object link_base exe_dir object = elim (macho_find_section object dwarf_name debug_line_name) [
  | undefined ↦ LinesOutcome.faulty
  | fails ↦ LinesOutcome.has_none
  | value none ↦ LinesOutcome.has_none
  | value (some (offset, size)) ↦ elim (macho_find_section object dwarf_name debug_line_str_name) [
    | undefined ↦ LinesOutcome.faulty
    | fails ↦ LinesOutcome.has_none
    | value names ↦
        if ltb (length object) (offset + size)
        then LinesOutcome.has_none
        else load_section link_base exe_dir (line_str_of object names)
            (take size (drop offset object))
  ]
]

unfoldable pub cdbg_lineno_load : Host → List ℕ → LinesOutcome
cdbg_lineno_load host executable =
    let exe_dir = take 511 (host.dir_name (take 511 executable)) in
    let debug_obj : List ℕ = elim (dsym_object_path host executable) [
      | none ↦ executable
      | some path ↦ path
    ] in
    elim (host.map_file executable) [
      | none ↦ LinesOutcome.has_none
      | some exe ↦ elim (macho_text_vmaddr exe) [
        | undefined ↦ LinesOutcome.faulty
        | fails ↦ LinesOutcome.has_none
        | value link_base ↦ elim (lineno_load_from_dwarfdump host debug_obj) [
          | some table ↦
              LinesOutcome.has_lines
                (record { link_base = link_base; exe_dir = exe_dir; table = table })
          | none ↦ elim (host.map_file debug_obj) [
            | none ↦ LinesOutcome.has_none
            | some object ↦ load_object link_base exe_dir object
          ]
        ]
      ]
    ]
