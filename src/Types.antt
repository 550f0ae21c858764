-- ===== src/Types.antt =====
-- What src/debugger.c and src/expr_eval.c make of the name of a C type. A name is the list of its characters; a
-- buffer of 128 characters keeps 127 of them.
use macos_c_debugger_arm.Lineno.{has_part}
use macos_c_debugger_arm.Prelude.{
  ℕ, zero, suc, Bool, true, false, not, ◌&&◌, ◌||◌, Option, none, some, List, [], ◌∷◌, ◌++◌, ◌==◌,
  leb, if◌then◌else◌, length, take,
}

abbrev pub char_text : List ℕ
char_text = 99 ∷ 104 ∷ 97 ∷ 114 ∷ []

abbrev pub short_text : List ℕ
short_text = 115 ∷ 104 ∷ 111 ∷ 114 ∷ 116 ∷ []

abbrev pub long_text : List ℕ
long_text = 108 ∷ 111 ∷ 110 ∷ 103 ∷ []

abbrev pub int_text : List ℕ
int_text = 105 ∷ 110 ∷ 116 ∷ []

abbrev pub bool_text : List ℕ
bool_text = 98 ∷ 111 ∷ 111 ∷ 108 ∷ []

abbrev pub unsigned_text : List ℕ
unsigned_text = 117 ∷ 110 ∷ 115 ∷ 105 ∷ 103 ∷ 110 ∷ 101 ∷ 100 ∷ []

-- strchr(text, c), as what stands in front of the character.
unfoldable pub before_char : ℕ → List ℕ → Option (List ℕ)
before_char c [] = none
before_char c (x ∷ xs) =
    let rest = before_char c xs in
    if x == c then some [] else elim rest [ none ↦ none | some ys ↦ some (x ∷ ys) ]

unfoldable pub is_pointer_type : List ℕ → Bool
unfolding before_char
is_pointer_type type = elim (before_char 42 type) [ none ↦ false | some base ↦ true ]

unfoldable pub strip_end : (ℕ → Bool) → List ℕ → List ℕ
strip_end drops [] = []
strip_end drops (c ∷ cs) = elim (strip_end drops cs) [
  | [] ↦ if drops c then [] else c ∷ []
  | d ∷ ds ↦ c ∷ d ∷ ds
]

abbrev is_blank : ℕ → Bool
is_blank c = c == 32

unfoldable pub type_scalar_size : List ℕ → ℕ
unfolding has_part is_pointer_type
type_scalar_size type =
    if is_pointer_type type
    then 8
    else if has_part char_text type
    then 1
    else if has_part short_text type
    then 2
    else if has_part long_text type
    then 8
    else if has_part int_text type || has_part bool_text type
    then 4
    else 8

-- isspace in the C locale.
abbrev pub is_space : ℕ → Bool
is_space c = c == 32 || leb 9 c && leb c 13

strip_front : List ℕ → List ℕ
strip_front [] = []
strip_front (c ∷ cs) = let rest = strip_front cs in if is_space c then rest else c ∷ cs

unfoldable pub trim_space : List ℕ → List ℕ
unfolding strip_front strip_end
trim_space text = strip_end is_space (strip_front text)

unfoldable pub type_pointee_size : List ℕ → ℕ
unfolding before_char type_scalar_size trim_space
type_pointee_size type = elim (before_char 42 type) [
  | none ↦ 0
  | some base ↦ type_scalar_size (trim_space (take 127 base))
]

unfoldable pub type_is_scalar : List ℕ → Bool
unfolding has_part is_pointer_type
type_is_scalar [] = false
type_is_scalar (c ∷ cs) =
    let type = c ∷ cs in
    is_pointer_type type
    || has_part char_text type
    || has_part short_text type
    || has_part int_text type
    || has_part long_text type
    || has_part bool_text type

-- The element's type and the count. `strtoul` reads a decimal number, and says what follows it.
unfoldable pub parse_array_type : (List ℕ → Option (ℕ × List ℕ)) → List ℕ → Option (List ℕ × ℕ)
unfolding before_char
parse_array_type strtoul type = elim (before_char 91 type) [
  | none ↦ none
  | some [] ↦ none
  | some (c ∷ cs) ↦ elim (strtoul (behind (suc (length (c ∷ cs))) type)) [
    | none ↦ none
    | some (count, []) ↦ none
    | some (count, e ∷ es) ↦ if e == 93 then some (take 127 (c ∷ cs), count) else none
  ]
]
  where
    behind : ℕ → List ℕ → List ℕ
    behind zero cs = cs
    behind (suc n) [] = []
    behind (suc n) (c ∷ cs) = behind n cs

unfoldable pub pointer_pointee_type : List ℕ → List ℕ
unfolding before_char strip_end
pointer_pointee_type type = elim (before_char 42 type) [
  | none ↦ take 127 type
  | some base ↦ take 127 (strip_end is_blank base)
]

unfoldable pub strip_pointer_star : List ℕ → List ℕ
unfolding before_char strip_end
strip_pointer_star type = elim (before_char 42 type) [
  | none ↦ []
  | some base ↦ take 127 (strip_end is_blank base)
]

-- " *" behind at most 124 characters.
unfoldable pub make_pointer_type : List ℕ → List ℕ
unfolding strip_end
make_pointer_type [] = []
make_pointer_type (c ∷ cs) =
    let base = strip_end is_blank (c ∷ cs) in
    (if leb 125 (length base) then take 124 base else base) ++ (32 ∷ 42 ∷ [])

-- strstr(type, "unsigned") == NULL
abbrev pub is_signed_type : List ℕ → Bool
is_signed_type type = not (has_part unsigned_text type)
