-- ===== src/Macho/Tests.antt =====
-- The readers of Mach-O files at concrete inputs.
use macos_c_debugger_arm.Dwarf.Program.{drop}
use macos_c_debugger_arm.Macho.{mh_magic_64, lc_segment_64, text_name, macho_text_vmaddr}
use macos_c_debugger_arm.Macho.Commands.{joined, text_of, macho_text_vmaddr-joined}
use macos_c_debugger_arm.Prelude.{◌≡◌, refl, ℕ, List, [], ◌∷◌, ◌++◌, replicate, bytes_of, value}

-- Two commands: one of another kind, and the segment __TEXT.
abbrev header : List ℕ
header = bytes_of 4 mh_magic_64 ++ replicate 12 0 ++ bytes_of 4 2 ++ replicate 12 0

abbrev other : List ℕ
other = bytes_of 4 0x1b ++ bytes_of 4 12 ++ bytes_of 4 7

abbrev text : List ℕ
text =
    bytes_of 4 lc_segment_64
    ++ bytes_of 4 72
    ++ text_name
    ++ replicate 10 0
    ++ bytes_of 8 0x100000000
    ++ replicate 40 0

macho_text_vmaddr-joined_example :
    macho_text_vmaddr (header ++ joined (other ∷ text ∷ []) (9 ∷ []))
    ≡ value (text_of (other ∷ text ∷ []))
unfolding drop
macho_text_vmaddr-joined_example =
    macho_text_vmaddr-joined header (other ∷ text ∷ []) (9 ∷ []) refl refl refl (refl, (refl, tt))
