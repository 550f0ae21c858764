-- ===== src/Dwarf/Load/Rows.antt =====
-- What the rows that dwarfdump prints become in src/lineno.c.
use macos_c_debugger_arm.Dwarf.Program.{drop}
use macos_c_debugger_arm.Dwarf.Load.{
  Dump, find_part, split_quote, dir_marker, name_marker, name_line, row_line, dump_line, dump_lines,
  full_path,
}
use macos_c_debugger_arm.Lineno.{LineEntry, begins_with}
use macos_c_debugger_arm.Objects.{Host}
use macos_c_debugger_arm.Prelude.{
  ℕ, ◌≡◌, refl, true, none, some, List, [], ◌∷◌, ◌++◌, map, All, take, append_assoc, append-nil,
}

-- A row of the table of lines.
pub record Row : Type 0 where
  pub text : List ℕ
  pub address : ℕ
  pub line : ℕ
  pub column : ℕ

-- No marker stands in the text, and the row can be read from it.
abbrev pub IsRow : Host → Row → Type 0
IsRow host row =
    (find_part dir_marker row.text ≡ none)
    × (find_part name_marker row.text ≡ none)
    × (begins_with (48 ∷ 120 ∷ []) row.text ≡ true)
    × (host.scan_row row.text ≡ some (row.address, row.line, row.column))

abbrev pub entry_of : List ℕ → Row → LineEntry
entry_of file row = record {
  address = row.address;
  line = row.line;
  column = row.column;
  file = file;
}

-- A line with the name of a file: what the marker begins in it, and the name up to its quote.
pub record NameLine : Type 0 where
  pub text : List ℕ
  pub marked : List ℕ
  pub name : List ℕ
  pub behind : List ℕ

abbrev pub IsNameLine : NameLine → Type 0
IsNameLine l =
    (find_part dir_marker l.text ≡ none)
    × (find_part name_marker l.text ≡ some l.marked)
    × (split_quote (drop 7 l.marked) ≡ some (l.name, l.behind))

dump_line-NameLine :
    (host : Host) (dump : Dump) (l : NameLine)
    → IsNameLine l
    → dump_line host dump l.text ≡ record dump { current_file = take 511 l.name }
unfolding dump_line name_line
dump_line-NameLine host dump l (no_dir, marked, quoted) =
    rw (dump_line, no_dir, marked, name_line, quoted) refl

dump_line-Row :
    (host : Host) (dump : Dump) (row : Row)
    → IsRow host row
    → dump_line host dump row.text
      ≡ record dump { entries = dump.entries ++ (entry_of (full_path dump) row ∷ []) }
unfolding dump_line full_path row_line
dump_line-Row host dump row (no_dir, no_name, begins, scanned) =
    rw (dump_line, no_dir, no_name, row_line, begins, scanned) refl

dump_lines-rows :
    (host : Host) (dump : Dump) (rows : List Row)
    → All (IsRow host) rows
    → dump_lines host dump (map (λ r. r.text) rows)
      ≡ record dump { entries = dump.entries ++ map (entry_of (full_path dump)) rows }
unfolding dump_lines full_path
dump_lines-rows host dump [] h = rw (dump_lines, append-nil dump.entries) refl
dump_lines-rows host dump (row ∷ rows) (h, hs) =
    let path = full_path dump in
    rw
      (
        dump_lines,
        dump_line-Row host dump row h,
        dump_lines-rows host (record dump { entries = dump.entries ++ (entry_of path row ∷ []) })
            rows hs,
      )
      (rw (append_assoc dump.entries (entry_of path row ∷ []) (map (entry_of path) rows)) refl)

-- After lines with names of files, the rows that follow are all put down to the file of the last name,
-- whatever file their own columns say.
pub dump_lines-names :
    (host : Host) (dump : Dump) (names : List NameLine) (last : NameLine) (rows : List Row)
    → All IsNameLine names
    → IsNameLine last
    → All (IsRow host) rows
    → dump_lines host dump (map (λ l. l.text) names ++ (last.text ∷ map (λ r. r.text) rows))
      ≡ record dump {
        current_file = take 511 last.name;
        entries =
            dump.entries
            ++ map (entry_of (full_path (record dump { current_file = take 511 last.name }))) rows;
      }
unfolding dump_lines
dump_lines-names host dump [] last rows h l hs =
    rw (dump_lines, dump_line-NameLine host dump last l) (dump_lines-rows host _ rows hs)
dump_lines-names host dump (n ∷ names) last rows (h, more) l hs =
    rw (dump_lines, dump_line-NameLine host dump n h)
      (dump_lines-names host _ names last rows more l hs)
