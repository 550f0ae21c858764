-- ===== src/Dwarf/Leb/Fixed.antt =====
-- `read_u64` and `read_u16` of src/lineno.c on the bytes of a number.
use macos_c_debugger_arm.Dwarf.Leb.{next_byte}
use macos_c_debugger_arm.Dwarf.{read_u8, u64_loop, read_u64}
use macos_c_debugger_arm.Prelude.{
  ℕ, zero, suc, ◌+◌, ◌*◌, ◌/◌, ◌%◌, ◌^◌, ◌≤◌, ◌<◌, ◌≡◌, ap, ◌∙◌, List, ◌++◌, bit_or, arith,
  bytes_of,
}
use macos_c_debugger_arm.Prelude.Bits.{bit_or_fields_above}
use native.Mathlib.Nat.{pow-suc, add-mul, mul_assoc, mul-le-mul_right}

u64_loop-bytes_of :
    (n shift value v : ℕ) (rest : List ℕ)
    → v < 256 ^ n
    → value < 2 ^ shift
    → u64_loop n shift value (bytes_of n v ++ rest) ≡ (value + v * 2 ^ shift, rest)
unfolding u64_loop read_u8
u64_loop-bytes_of zero shift value v rest fits below =
    let none_left : v ≡ 0 = omega arith in rw none_left (ap (λ t. (t, rest)) (omega arith))
u64_loop-bytes_of (suc n) shift value v rest fits below =
    let low = v % 256 in
    let high = v / 256 in
    let here = bit_or_fields_above shift low value below in
    let bounded : low * 2 ^ shift ≤ 255 * 2 ^ shift = mul-le-mul_right (2 ^ shift) (omega arith) in
    let more =
      u64_loop-bytes_of n (shift + 8) (value + low * 2 ^ shift) high rest
        (omega (arith, fits, pow-suc 256 n)) (omega (arith, below, next_byte shift, bounded)) in
    let split : v * 2 ^ shift ≡ (low + high * 256) * 2 ^ shift =
      ap (λ t. t * 2 ^ shift) (omega arith) in
    rw (here, more)
      (ap (λ t. (t, rest))
        (omega (
          arith,
          split,
          add-mul low (high * 256) (2 ^ shift),
          mul_assoc high 256 (2 ^ shift),
          ap (λ t. high * t) (next_byte shift),
        )))

pub read_u64-bytes_of :
    (v : ℕ) (rest : List ℕ) → v < 2 ^ 64 → read_u64 (bytes_of 8 v ++ rest) ≡ (v, rest)
read_u64-bytes_of v rest fits =
    u64_loop-bytes_of 8 0 0 v rest fits (omega arith) ∙ ap (λ t. (t, rest)) whole
  where
    whole : 0 + v * 2 ^ 0 ≡ v
    whole = omega arith

pub two_bytes : (v : ℕ) → v < 2 ^ 16 → bit_or (v % 256) (v / 256 % 256 * 2 ^ 8) ≡ v
two_bytes v fits = bit_or_fields_above 8 (v / 256 % 256) (v % 256) (omega arith) ∙ omega arith
