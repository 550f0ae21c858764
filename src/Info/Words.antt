-- ===== src/Info/Words.antt =====
-- The words that src/debugger.c looks for in the lines of dwarfdump.
use macos_c_debugger_arm.Prelude.{ℕ, List, [], ◌∷◌}

-- "DW_TAG_"
abbrev pub tag_text : List ℕ
tag_text = 68 ∷ 87 ∷ 95 ∷ 84 ∷ 65 ∷ 71 ∷ 95 ∷ []

-- "NULL"
abbrev pub null_text : List ℕ
null_text = 78 ∷ 85 ∷ 76 ∷ 76 ∷ []

-- "DW_TAG_subprogram"
abbrev pub subprogram_text : List ℕ
subprogram_text =
    68 ∷ 87 ∷ 95 ∷ 84 ∷ 65 ∷ 71 ∷ 95 ∷ 115 ∷ 117 ∷ 98 ∷ 112 ∷ 114 ∷ 111 ∷ 103 ∷ 114 ∷ 97 ∷ 109 ∷ []

-- "DW_TAG_variable"
abbrev pub variable_text : List ℕ
variable_text = 68 ∷ 87 ∷ 95 ∷ 84 ∷ 65 ∷ 71 ∷ 95 ∷ 118 ∷ 97 ∷ 114 ∷ 105 ∷ 97 ∷ 98 ∷ 108 ∷ 101 ∷ []

-- "DW_TAG_formal_parameter"
abbrev pub parameter_text : List ℕ
parameter_text =
    68 ∷ 87 ∷ 95 ∷ 84 ∷ 65 ∷ 71 ∷ 95 ∷ 102 ∷ 111 ∷ 114 ∷ 109 ∷ 97 ∷ 108 ∷ 95 ∷ 112 ∷ 97 ∷ 114 ∷ 97
    ∷ 109 ∷ 101 ∷ 116 ∷ 101 ∷ 114 ∷ []

-- "DW_TAG_structure_type"
abbrev pub structure_text : List ℕ
structure_text =
    68 ∷ 87 ∷ 95 ∷ 84 ∷ 65 ∷ 71 ∷ 95 ∷ 115 ∷ 116 ∷ 114 ∷ 117 ∷ 99 ∷ 116 ∷ 117 ∷ 114 ∷ 101 ∷ 95 ∷ 116
    ∷ 121 ∷ 112 ∷ 101 ∷ []

-- "DW_TAG_union_type"
abbrev pub union_text : List ℕ
union_text =
    68 ∷ 87 ∷ 95 ∷ 84 ∷ 65 ∷ 71 ∷ 95 ∷ 117 ∷ 110 ∷ 105 ∷ 111 ∷ 110 ∷ 95 ∷ 116 ∷ 121 ∷ 112 ∷ 101 ∷ []

-- "DW_TAG_member"
abbrev pub member_text : List ℕ
member_text = 68 ∷ 87 ∷ 95 ∷ 84 ∷ 65 ∷ 71 ∷ 95 ∷ 109 ∷ 101 ∷ 109 ∷ 98 ∷ 101 ∷ 114 ∷ []

-- "DW_AT_low_pc"
abbrev pub low_pc_text : List ℕ
low_pc_text = 68 ∷ 87 ∷ 95 ∷ 65 ∷ 84 ∷ 95 ∷ 108 ∷ 111 ∷ 119 ∷ 95 ∷ 112 ∷ 99 ∷ []

-- "DW_AT_high_pc"
abbrev pub high_pc_text : List ℕ
high_pc_text = 68 ∷ 87 ∷ 95 ∷ 65 ∷ 84 ∷ 95 ∷ 104 ∷ 105 ∷ 103 ∷ 104 ∷ 95 ∷ 112 ∷ 99 ∷ []

-- "DW_AT_location"
abbrev pub location_text : List ℕ
location_text = 68 ∷ 87 ∷ 95 ∷ 65 ∷ 84 ∷ 95 ∷ 108 ∷ 111 ∷ 99 ∷ 97 ∷ 116 ∷ 105 ∷ 111 ∷ 110 ∷ []

-- "DW_AT_name"
abbrev pub name_text : List ℕ
name_text = 68 ∷ 87 ∷ 95 ∷ 65 ∷ 84 ∷ 95 ∷ 110 ∷ 97 ∷ 109 ∷ 101 ∷ []

-- "DW_AT_type"
abbrev pub type_text : List ℕ
type_text = 68 ∷ 87 ∷ 95 ∷ 65 ∷ 84 ∷ 95 ∷ 116 ∷ 121 ∷ 112 ∷ 101 ∷ []

-- "DW_AT_byte_size"
abbrev pub byte_size_text : List ℕ
byte_size_text =
    68 ∷ 87 ∷ 95 ∷ 65 ∷ 84 ∷ 95 ∷ 98 ∷ 121 ∷ 116 ∷ 101 ∷ 95 ∷ 115 ∷ 105 ∷ 122 ∷ 101 ∷ []

-- "DW_AT_data_member_location"
abbrev pub member_location_text : List ℕ
member_location_text =
    68 ∷ 87 ∷ 95 ∷ 65 ∷ 84 ∷ 95 ∷ 100 ∷ 97 ∷ 116 ∷ 97 ∷ 95 ∷ 109 ∷ 101 ∷ 109 ∷ 98 ∷ 101 ∷ 114 ∷ 95
    ∷ 108 ∷ 111 ∷ 99 ∷ 97 ∷ 116 ∷ 105 ∷ 111 ∷ 110 ∷ []

-- "DW_OP_fbreg"
abbrev pub fbreg_text : List ℕ
fbreg_text = 68 ∷ 87 ∷ 95 ∷ 79 ∷ 80 ∷ 95 ∷ 102 ∷ 98 ∷ 114 ∷ 101 ∷ 103 ∷ []

-- "DW_OP_breg"
abbrev pub breg_text : List ℕ
breg_text = 68 ∷ 87 ∷ 95 ∷ 79 ∷ 80 ∷ 95 ∷ 98 ∷ 114 ∷ 101 ∷ 103 ∷ []

-- "DW_OP_addr"
abbrev pub addr_text : List ℕ
addr_text = 68 ∷ 87 ∷ 95 ∷ 79 ∷ 80 ∷ 95 ∷ 97 ∷ 100 ∷ 100 ∷ 114 ∷ []

-- "0x"
abbrev pub hex_text : List ℕ
hex_text = 48 ∷ 120 ∷ []

-- "DW_TAG_lexical_block"
abbrev pub lexical_text : List ℕ
lexical_text =
    68 ∷ 87 ∷ 95 ∷ 84 ∷ 65 ∷ 71 ∷ 95 ∷ 108 ∷ 101 ∷ 120 ∷ 105 ∷ 99 ∷ 97 ∷ 108 ∷ 95 ∷ 98 ∷ 108 ∷ 111
    ∷ 99 ∷ 107 ∷ []
