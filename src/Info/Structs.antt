-- ===== src/Info/Structs.antt =====
-- `dwarf_lookup_struct`, `dwarf_lookup_aggregate_kind` and `format_type_for_display` of src/debugger.c.
use macos_c_debugger_arm.Dwarf.Program.{drop}
use macos_c_debugger_arm.Info.{
  Numbers, dwarf_starts_die, parse_member_offset, parse_byte_size, parse_quoted_value, null_text,
  structure_text, union_text, member_text, name_text, type_text, byte_size_text,
  member_location_text,
}
use macos_c_debugger_arm.Info.Locals.{or_else}
use macos_c_debugger_arm.Lineno.{begins_with, has_part, same_text}
use macos_c_debugger_arm.Prelude.{
  ℕ, ◌-◌, take, Bool, true, false, not, ◌&&◌, ◌||◌, Option, none, some, List, [], ◌∷◌, ◌++◌, ◌==◌,
  ltb, if◌then◌else◌, length,
}
use macos_c_debugger_arm.Types.{
  before_char, trim_space, type_scalar_size, type_is_scalar, is_signed_type,
}
use macos_c_debugger_arm.Variables.{StructMember}

-- The variables of the loop: `reading` is `member` where `reading_member` is set.
pub record StructScan : Type 0 where
  pub in_struct : Bool
  pub struct_matches : Bool
  pub reading : Option StructMember
  pub members : List StructMember
  pub byte_size : ℕ

abbrev pub start_scan : StructScan
start_scan = record {
  in_struct = false;
  struct_matches = false;
  reading = none;
  members = [];
  byte_size = 0;
}

abbrev pub empty_member : StructMember
empty_member = record { name = []; type = []; offset = 0; size = 0; is_signed = false }

-- A member that has been read is put behind the others, where there is room and it has a name.
unfoldable pub end_member : ℕ → StructScan → StructScan
end_member max_members s = elim s.reading [
  | none ↦ s
  | some m ↦
      if not (length m.name == 0) && ltb (length s.members) max_members
      then record s {
        reading = none;
        members =
            s.members
            ++ (record m { size = type_scalar_size m.type; is_signed = is_signed_type m.type }
                ∷ []);
      }
      else record s { reading = none }
]

abbrev is_reading : StructScan → Bool
is_reading s = elim s.reading [ none ↦ false | some m ↦ true ]

module _ (numbers : Numbers) (name : List ℕ) where
  unfoldable pub member_line : List ℕ → StructMember → StructMember
  member_line line m =
      if has_part name_text line
      then record m { name = or_else (parse_quoted_value 127 line) m.name }
      else if has_part type_text line
      then record m { type = or_else (parse_quoted_value 127 line) m.type }
      else if has_part member_location_text line
      then record m { offset = or_else (parse_member_offset numbers line) m.offset }
      else m

  -- strcmp with the text between the quotes.
  abbrev has_name : List ℕ → Bool
  has_name line = elim (parse_quoted_value 127 line) [
    | none ↦ false
    | some text ↦ same_text text name
  ]

  unfoldable pub struct_attribute : List ℕ → StructScan → StructScan
  struct_attribute line s = if not s.in_struct then s else elim s.reading [
    | none ↦
        if has_part name_text line
        then record s { struct_matches = s.struct_matches || has_name line }
        else if s.struct_matches && has_part byte_size_text line
        then record s { byte_size = or_else (parse_byte_size numbers line) s.byte_size }
        else s
    | some m ↦
        if not s.struct_matches
        then s
        else if has_part byte_size_text line
        then record s { byte_size = or_else (parse_byte_size numbers line) s.byte_size }
        else record s { reading = some (member_line line m) }
  ]

  -- What a line that begins an entry does: none where the loop ends at it.
  unfoldable pub struct_die : List ℕ → StructScan → Option StructScan
  struct_die line s =
      let matched = s.in_struct && s.struct_matches in
      if has_part structure_text line
      then some (record s { in_struct = true; struct_matches = false; byte_size = 0 })
      else if matched && has_part member_text line
      then some (record s { reading = some empty_member })
      else if matched && has_part null_text line
      then none
      else some (struct_attribute line (record s { in_struct = s.in_struct && s.struct_matches }))

  unfoldable pub struct_loop : ℕ → StructScan → List (List ℕ) → StructScan
  struct_loop max_members s [] = end_member max_members s
  struct_loop max_members s (line ∷ lines) =
      let ended = end_member max_members s in
      let within = struct_loop max_members (struct_attribute line s) lines in
      if not (dwarf_starts_die line)
      then within
      else if is_reading s && (s.in_struct && (s.struct_matches && has_part null_text line))
      then ended
      else elim (struct_die line ended) [
        | none ↦ ended
        | some s' ↦ struct_loop max_members s' lines
      ]

  -- The members and the size of the struct; none where it has no member.
  unfoldable pub lookup_struct : ℕ → List (List ℕ) → Option (List StructMember × ℕ)
  lookup_struct max_members lines =
      let s = struct_loop max_members start_scan lines in
      if length name == 0 || length s.members == 0 then none else some (s.members, s.byte_size)

pub data AggregateKind : Type 0 where
  agg_none agg_struct agg_union : AggregateKind

module _ (name : List ℕ) where
  -- The loop: `current_kind` where `in_aggregate` is set.
  unfoldable pub kind_loop : Option AggregateKind → List (List ℕ) → AggregateKind
  kind_loop kind [] = agg_none
  kind_loop kind (line ∷ lines) =
      let as_struct = kind_loop (some agg_struct) lines in
      let as_union = kind_loop (some agg_union) lines in
      let outside = kind_loop none lines in
      let same = kind_loop kind lines in
      if dwarf_starts_die line && has_part structure_text line
      then as_struct
      else if dwarf_starts_die line && has_part union_text line
      then as_union
      else if dwarf_starts_die line
      then outside
      else elim kind [
        | none ↦ outside
        | some current ↦
            if has_part name_text line && (elim (parse_quoted_value 127 line) [
              | none ↦ false
              | some text ↦ same_text text name
            ])
            then current
            else same
      ]

  unfoldable pub dwarf_lookup_aggregate_kind : List (List ℕ) → AggregateKind
  dwarf_lookup_aggregate_kind lines =
      if length name == 0 || type_is_scalar name then agg_none else kind_loop none lines

-- "struct ", "union " and " *"
abbrev struct_prefix : List ℕ
struct_prefix = 115 ∷ 116 ∷ 114 ∷ 117 ∷ 99 ∷ 116 ∷ 32 ∷ []

abbrev union_prefix : List ℕ
union_prefix = 117 ∷ 110 ∷ 105 ∷ 111 ∷ 110 ∷ 32 ∷ []

abbrev pointer_suffix : List ℕ
pointer_suffix = 32 ∷ 42 ∷ []

abbrev pub type_has_struct_union_prefix : List ℕ → Bool
type_has_struct_union_prefix type = begins_with struct_prefix type || begins_with union_prefix type

-- The text in front of the first such character, or the whole; and what is cut off.
unfoldable pub cut_at : ℕ → List ℕ → List ℕ × List ℕ
cut_at c text = elim (before_char c text) [
  | none ↦ (text, [])
  | some before ↦ (before, drop (length before) text)
]

-- The type as `out_len` characters show it, with `struct` or `union` where the debug information says so.
unfoldable pub format_type_for_display : List (List ℕ) → ℕ → List ℕ → List ℕ
format_type_for_display lines out_len [] = []
format_type_for_display lines out_len (c ∷ cs) =
    let type = c ∷ cs in
    let (work, bracket) = cut_at 91 (take 255 type) in
    let (front, star) = cut_at 42 work in
    let base = trim_space front in
    let suffix = take 63 bracket ++ (if length star == 0 then [] else pointer_suffix) in
    if type_has_struct_union_prefix type
    then take (out_len - 1) type
    else elim (dwarf_lookup_aggregate_kind base lines) [
      | agg_struct ↦ take (out_len - 1) (struct_prefix ++ base ++ suffix)
      | agg_union ↦ take (out_len - 1) (union_prefix ++ base ++ suffix)
      | agg_none ↦ take (out_len - 1) type
    ]
