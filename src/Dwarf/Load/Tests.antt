-- ===== src/Dwarf/Load/Tests.antt =====
-- The lines of dwarfdump --debug-line at concrete inputs.
use macos_c_debugger_arm.Dwarf.Load.{
  dump_lines, no_dump, full_path, find_part, split_quote, has_slash,
}
use macos_c_debugger_arm.Dwarf.Load.Rows.{Row, NameLine, entry_of, dump_lines-names}
use macos_c_debugger_arm.Dwarf.Program.{drop}
use macos_c_debugger_arm.Lineno.{begins_with}
use macos_c_debugger_arm.Objects.{Host}
use macos_c_debugger_arm.Prelude.{◌≡◌, refl, none, some, [], ◌∷◌, true}

-- A system without files, whose sscanf reads one row.
abbrev host : Host
host = record {
  map_file = λ path. none;
  can_read = λ path. true;
  base_name = λ path. path;
  dir_name = λ path. [];
  popen = λ command. none;
  scan_symbol = λ line. none;
  scan_type_and_name = λ line. none;
  scan_row = λ line. some (4096, 3, 1);
}

-- The lines with the names "a.c" and "b.h", and a row of the first file.
abbrev first_name : NameLine
first_name = record {
  text = 110 ∷ 97 ∷ 109 ∷ 101 ∷ 58 ∷ 32 ∷ 34 ∷ 97 ∷ 46 ∷ 99 ∷ 34 ∷ [];
  marked = 110 ∷ 97 ∷ 109 ∷ 101 ∷ 58 ∷ 32 ∷ 34 ∷ 97 ∷ 46 ∷ 99 ∷ 34 ∷ [];
  name = 97 ∷ 46 ∷ 99 ∷ [];
  behind = [];
}

abbrev last_name : NameLine
last_name = record {
  text = 110 ∷ 97 ∷ 109 ∷ 101 ∷ 58 ∷ 32 ∷ 34 ∷ 98 ∷ 46 ∷ 104 ∷ 34 ∷ [];
  marked = 110 ∷ 97 ∷ 109 ∷ 101 ∷ 58 ∷ 32 ∷ 34 ∷ 98 ∷ 46 ∷ 104 ∷ 34 ∷ [];
  name = 98 ∷ 46 ∷ 104 ∷ [];
  behind = [];
}

abbrev row : Row
row = record {
  text = 48 ∷ 120 ∷ 49 ∷ 48 ∷ 48 ∷ 48 ∷ 32 ∷ 51 ∷ 32 ∷ 49 ∷ 32 ∷ 49 ∷ [];
  address = 4096;
  line = 3;
  column = 1;
}

dump_lines-names_example :
    dump_lines host no_dump (first_name.text ∷ last_name.text ∷ row.text ∷ []) ≡ record {
      current_dir = [];
      current_file = last_name.name;
      entries = entry_of last_name.name row ∷ [];
    }
unfolding full_path has_slash find_part begins_with split_quote drop
dump_lines-names_example =
    dump_lines-names host no_dump (first_name ∷ []) last_name (row ∷ []) ((refl, refl, refl), tt)
      (refl, refl, refl) ((refl, refl, refl, refl), tt)
