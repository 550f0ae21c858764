-- ===== src/Values/Text.antt =====
-- Values as texts in src/debugger.c: `parse_print_format`, `print_binary_value`, `print_char_value`, `read_c_string`
-- and `is_simple_identifier`. What is printed is the list of its characters.
use macos_c_debugger_arm.Kernel.{Kernel}
use macos_c_debugger_arm.Memory.{mem_read}
use macos_c_debugger_arm.Prelude.{
  ℕ, zero, suc, ◌+◌, ◌-◌, ◌*◌, ◌/◌, ◌%◌, ◌^◌, Bool, true, false, ◌&&◌, ◌||◌, Option, none, some,
  List, [], ◌∷◌, ◌==◌, ltb, leb, if◌then◌else◌, u64,
}
use macos_c_debugger_arm.Types.{is_space, trim_space}
use macos_c_debugger_arm.Values.{mask_to_size}

pub data PrintFormat : Type 0 where
  fmt_default fmt_dec fmt_hex fmt_oct fmt_bin fmt_char fmt_string : PrintFormat

-- The letter behind the '/'.
unfoldable pub format_of : ℕ → PrintFormat
format_of c =
    if c == 100 || c == 105
    then fmt_dec
    else if c == 120
    then fmt_hex
    else if c == 111
    then fmt_oct
    else if c == 116
    then fmt_bin
    else if c == 99
    then fmt_char
    else if c == 115
    then fmt_string
    else fmt_default

abbrev pub ends_format : List ℕ → Bool
ends_format [] = true
ends_format (c ∷ cs) = is_space c

-- The format, with the expression behind it; the text as it is where there is none.
unfoldable pub parse_print_format : List ℕ → PrintFormat × List ℕ
parse_print_format [] = (fmt_default, [])
parse_print_format (a ∷ []) = (fmt_default, a ∷ [])
parse_print_format (a ∷ c ∷ cs) =
    if a == 47 && ends_format cs
    then (elim (format_of c) as (λ _. PrintFormat × List ℕ) [
      | fmt_default ↦ (fmt_default, a ∷ c ∷ cs)
      | format ↦ (format, trim_space cs)
    ])
    else (fmt_default, a ∷ c ∷ cs)

-- The lowest `bits` bits, the highest first.
unfoldable pub bit_digits : ℕ → ℕ → List ℕ
bit_digits zero value = []
bit_digits (suc bits) value = (48 + value / 2 ^ bits % 2) ∷ bit_digits bits value

unfoldable pub print_binary_value : ℕ → ℕ → List ℕ
print_binary_value value size =
    bit_digits (if size == 0 || ltb 8 size then 64 else size * 8) (mask_to_size value size)

abbrev hex_digit : ℕ → ℕ
hex_digit n = if ltb n 10 then 48 + n else 87 + n

-- Between quotes: a backslash and a quote escaped, what is not printable as two hexadecimal digits.
unfoldable pub print_char_value : ℕ → List ℕ
print_char_value ch =
    if ch == 92 || ch == 39
    then 39 ∷ 92 ∷ ch ∷ 39 ∷ []
    else if leb 32 ch && leb ch 126
    then 39 ∷ ch ∷ 39 ∷ []
    else 39 ∷ 92 ∷ 120 ∷ hex_digit (ch / 16) ∷ hex_digit (ch % 16) ∷ 39 ∷ []

-- A letter or '_'.
unfoldable pub is_alpha : ℕ → Bool
is_alpha c = leb 65 c && leb c 90 || (leb 97 c && leb c 122 || c == 95)

unfoldable pub all_word : List ℕ → Bool
all_word [] = true
all_word (c ∷ cs) = (is_alpha c || leb 48 c && leb c 57) && all_word cs

-- A letter or '_', and then letters, digits and '_'.
unfoldable pub is_simple_identifier : List ℕ → Bool
is_simple_identifier [] = false
is_simple_identifier (c ∷ cs) = is_alpha c && all_word cs

module _ (k : Kernel) where
  -- At most `n` characters, up to the 0; none where a byte cannot be read.
  unfoldable pub c_string_loop : ℕ → k.World → ℕ → ℕ → Option (List ℕ)
  c_string_loop zero w pid addr = some []
  c_string_loop (suc n) w pid addr =
      let rest = c_string_loop n w pid (u64 (addr + 1)) in
      elim (mem_read k w pid addr 1) [
        | none ↦ none
        | some [] ↦ none
        | some (b ∷ bs) ↦
            if b == 0 then some [] else elim rest [ none ↦ none | some text ↦ some (b ∷ text) ]
      ]

  unfoldable pub read_c_string : k.World → ℕ → ℕ → ℕ → Option (List ℕ)
  read_c_string w pid addr out_len =
      if out_len == 0 then none else c_string_loop (out_len - 1) w pid addr
