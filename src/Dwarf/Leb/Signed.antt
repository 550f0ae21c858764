-- ===== src/Dwarf/Leb/Signed.antt =====
-- `read_sleb128` of src/lineno.c on an encoded number.
use macos_c_debugger_arm.Dwarf.Leb.{
  Uleb, last, more, low_bits, low_bit, top_bit, gather, next_group, group_times,
}
use macos_c_debugger_arm.Dwarf.{read_u8, extend_sign, sleb_loop, read_sleb128}
use macos_c_debugger_arm.Prelude.{
  ℕ, zero, suc, ◌+◌, ◌*◌, ◌-◌, ◌/◌, ◌%◌, ◌^◌, ◌≤◌, ◌<◌, ◌≡◌, refl, ap, ap₂, ◌∙◌, inl, inr, Bool,
  true, false, ◌&&◌, List, ◌++◌, ◌==◌, ltb, if◌then◌else◌, length, bit_and, bit_or, u64, arith,
  Bool-cases,
}
use macos_c_debugger_arm.Prelude.Bits.{
  bit_and_high, bit_or_fields_above, passes_below, passes_below-lt,
}
use native.Mathlib.Nat.{mul-le-mul_right, mul-le-mul, pow-le-pow_right}

-- All ones from bit `s` on, in 64 bits.
ones_above_at : ℕ → Bool
ones_above_at s =
    u64 ((2 ^ 64 - 1) * 2 ^ s) == (2 ^ (64 - s) - 1) * 2 ^ s
    && ((2 ^ (64 - s) - 1) * 2 ^ s == 2 ^ 64 - 2 ^ s)

ones_above :
    (s : ℕ)
    → s < 64
    → (u64 ((2 ^ 64 - 1) * 2 ^ s) ≡ (2 ^ (64 - s) - 1) * 2 ^ s)
      × ((2 ^ (64 - s) - 1) * 2 ^ s ≡ 2 ^ 64 - 2 ^ s)
unfolding ones_above_at passes_below
ones_above s h =
    let at : ones_above_at s ≡ true = passes_below-lt ones_above_at 64 refl s h in
    ground (arith, at)

-- A number of `bits` bits in two's complement, as an `int64_t`.
abbrev pub signed : ℕ → ℕ → ℕ
signed bits n = if ltb (n * 2) (2 ^ bits) then n else n + (2 ^ 64 - 2 ^ bits)

sign_bit : (b : ℕ) → bit_and b 0x40 ≡ b / 64 % 2 * 64
sign_bit b = bit_and_high 6 b 1 ∙ ap (λ t. t * 64) (low_bit (b / 64))

extend_sign-signed :
    (b shift value : ℕ)
    → b < 128
    → shift + 7 < 64
    → value < 2 ^ shift
    → extend_sign b (shift + 7) (value + b * 2 ^ shift) ≡ signed (shift + 7) (value + b * 2 ^ shift)
unfolding extend_sign
extend_sign-signed b shift value h short below =
    let ones = ones_above (shift + 7) short in
    let total = value + b * 2 ^ shift in
    let next = next_group shift in
    let bounded : b * 2 ^ shift ≤ 127 * 2 ^ shift = mul-le-mul_right (2 ^ shift) (omega arith) in
    let fill : bit_or total (u64 ((2 ^ 64 - 1) * 2 ^ (shift + 7)))
        ≡ total + (2 ^ 64 - 2 ^ (shift + 7)) =
      ap (λ t. bit_or total t) ones.0
      ∙ bit_or_fields_above (shift + 7) (2 ^ (64 - (shift + 7)) - 1) total (omega arith)
      ∙ ap (λ t. total + t) ones.1 in
    let sign = sign_bit b in
    elim (Bool-cases (ltb b 64)) [
      | inl small ↦
          let low : b * 2 ^ shift ≤ 63 * 2 ^ shift =
            mul-le-mul_right (2 ^ shift) (ground (arith, small)) in
          let clear : bit_and b 0x40 ≡ 0 = ground (arith, small, sign) in
          let under : ltb (total * 2) (2 ^ (shift + 7)) ≡ true = ground arith in
          rw (clear, under) refl
      | inr big ↦
          let high : 64 * 2 ^ shift ≤ b * 2 ^ shift =
            mul-le-mul_right (2 ^ shift) (ground (arith, big)) in
          let set : bit_and b 0x40 ≡ 64 = ground (arith, big, sign) in
          let over : ltb (total * 2) (2 ^ (shift + 7)) ≡ false = ground arith in
          let fits : ltb (shift + 7) 64 ≡ true = ground arith in rw (set, over, fits, fill) refl
    ]

group_fits : (b shift : ℕ) → b < 128 → shift < 57 → b * 2 ^ shift < 2 ^ 64
group_fits b shift h short =
    let grows : 2 ^ shift ≤ 2 ^ 56 = pow-le-pow_right (omega arith) {j = 56} (omega arith) in
    let below : b ≤ 127 = omega arith in
    let times : b * 2 ^ shift ≤ 127 * 2 ^ 56 = mul-le-mul below grows in omega arith

sleb_loop-Uleb :
    (n before shift value m : ℕ) (bs rest : List ℕ)
    → Uleb bs m
    → length bs ≤ n
    → shift + 7 * length bs < 64
    → value < 2 ^ shift
    → sleb_loop n before shift value (bs ++ rest)
      ≡ (signed (shift + 7 * length bs) (value + m * 2 ^ shift), rest)
unfolding sleb_loop read_u8
sleb_loop-Uleb zero before shift value m bs rest (last h) short fits below = absurd (omega arith)
sleb_loop-Uleb zero before shift value m bs rest (more h u) short fits below = absurd (omega arith)
sleb_loop-Uleb (suc n) before shift value m bs rest (last h) short fits below =
    let low : bit_and m 0x7f ≡ m = low_bits m ∙ omega arith in
    let top : bit_and m 0x80 ≡ 0 = top_bit m ∙ omega arith in
    let here = gather shift value m below (group_fits m shift h (omega arith)) in
    rw (low, top, here)
      (ap (λ t. (t, rest)) (extend_sign-signed m shift value h (omega arith) below))
sleb_loop-Uleb (suc n) before shift value m bs rest (more {b} {n = k} {bs = cs} h u) short fits
      below =
    let low : bit_and (b + 128) 0x7f ≡ b = low_bits (b + 128) ∙ omega arith in
    let top : bit_and (b + 128) 0x80 ≡ 128 = top_bit (b + 128) ∙ omega arith in
    let parts = group_times b k (2 ^ shift) in
    let further : k * 2 ^ (shift + 7) ≡ k * (128 * 2 ^ shift) =
      ap (λ t. k * t) (next_group shift) in
    let bounded : b * 2 ^ shift ≤ 127 * 2 ^ shift = mul-le-mul_right (2 ^ shift) (omega arith) in
    let here = gather shift value b below (group_fits b shift h (omega arith)) in
    let rest_of =
      sleb_loop-Uleb n (b + 128) (shift + 7) (value + b * 2 ^ shift) k cs rest u
        (omega (arith, short)) (omega (arith, fits))
        (omega (arith, below, next_group shift, bounded)) in
    let bits : shift + 7 + 7 * length cs ≡ shift + 7 * suc (length cs) = omega arith in
    let total : value + b * 2 ^ shift + k * 2 ^ (shift + 7) ≡ value + (b + 128 * k) * 2 ^ shift =
      omega (arith, parts, further) in
    rw (low, top, here, rest_of) (ap₂ (λ i t. (signed i t, rest)) bits total)

-- Of at most nine bytes that encode a number, followed by any others, what is read is the number in the
-- two-complement of seven bits for each byte, and the cursor is behind them.
pub read_sleb128-Uleb :
    (m : ℕ) (bs rest : List ℕ)
    → Uleb bs m
    → length bs ≤ 9
    → read_sleb128 (bs ++ rest) ≡ (signed (7 * length bs) m, rest)
read_sleb128-Uleb m bs rest u short =
    let bits : 0 + 7 * length bs ≡ 7 * length bs = omega arith in
    let whole : 0 + m * 2 ^ 0 ≡ m = omega arith in
    sleb_loop-Uleb 10 0 0 0 m bs rest u (omega arith) (omega arith) (omega arith)
    ∙ ap₂ (λ i t. (signed i t, rest)) bits whole
