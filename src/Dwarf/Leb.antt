-- ===== src/Dwarf/Leb.antt =====
-- What the readers of src/lineno.c for LEB128 numbers make of an encoded number.
pub mod Signed
pub mod Fixed
use macos_c_debugger_arm.Dwarf.{
  read_u8, u64_loop, read_u64, uleb_loop, read_uleb128, extend_sign, sleb_loop, read_sleb128,
}
use macos_c_debugger_arm.Prelude.{
  ℕ, zero, suc, ◌+◌, ◌*◌, ◌-◌, ◌/◌, ◌%◌, ◌^◌, ◌≤◌, ◌<◌, ◌≡◌, refl, ap, ap₂, ◌∙◌, inl, inr, Bool,
  true, false, ◌&&◌, List, [], ◌∷◌, ◌++◌, ◌==◌, ltb, if◌then◌else◌, length, bit_and, bit_or, u64,
  arith, bytes_of, Bool-cases,
}
use macos_c_debugger_arm.Prelude.Bits.{
  bit_and_mask, bit_and_high, bit_or_fields_above, passes_below, passes_below-lt,
}
use native.Mathlib.Nat.{
  pow-suc, add-mul, mul_comm, mul_assoc, mul-le-mul_right, mul-le-mul, pow-le-pow_right,
}

-- The bytes encode the number: seven bits each, the lowest first, and bit 7 set in all but the last. Groups of
-- zeros at the end are allowed.
pub data Uleb : List ℕ → ℕ → Type 0 where
  last : {b : ℕ} → b < 128 → Uleb (b ∷ []) b
  more : {b n : ℕ} {bs : List ℕ} → b < 128 → Uleb bs n → Uleb ((b + 128) ∷ bs) (b + 128 * n)

low_bits : (b : ℕ) → bit_and b 0x7f ≡ b % 128
low_bits b = bit_and_mask 7 b

low_bit : (c : ℕ) → bit_and c 1 ≡ c % 2
low_bit c = bit_and_mask 1 c

top_bit : (b : ℕ) → bit_and b 0x80 ≡ b / 128 % 2 * 128
top_bit b = bit_and_high 7 b 1 ∙ ap (λ t. t * 128) (low_bit (b / 128))

-- One group is put above the value read so far.
gather :
    (shift value group : ℕ)
    → value < 2 ^ shift
    → group * 2 ^ shift < 2 ^ 64
    → bit_or value (u64 (group * 2 ^ shift)) ≡ value + group * 2 ^ shift
gather shift value group below fits =
    let whole : u64 (group * 2 ^ shift) ≡ group * 2 ^ shift = omega arith in
    rw whole (bit_or_fields_above shift group value below)

pow_add : (i k : ℕ) → 2 ^ (k + i) ≡ 2 ^ i * 2 ^ k
pow_add zero k = let e : k + 0 ≡ k = omega arith in rw e (omega arith)
pow_add (suc i) k =
    let e : k + suc i ≡ suc (k + i) = omega arith in
    ap (λ t. 2 ^ t) e
    ∙ pow-suc 2 (k + i)
    ∙ omega (
      arith,
      pow_add i k,
      ap (λ t. t * 2 ^ k) (pow-suc 2 i),
      mul_assoc (2 ^ i) 2 (2 ^ k),
      ap (λ t. 2 ^ i * t) (mul_comm 2 (2 ^ k)),
      mul_assoc (2 ^ i) (2 ^ k) 2,
    )

-- Seven bits further up, and eight.
next_group : (shift : ℕ) → 2 ^ (shift + 7) ≡ 128 * 2 ^ shift
next_group shift = pow_add 7 shift

next_byte : (shift : ℕ) → 2 ^ (shift + 8) ≡ 256 * 2 ^ shift
next_byte shift = pow_add 8 shift

-- The two parts of a number of seven bits and one more, as a product with a power of two.
group_times : (b n p : ℕ) → (b + 128 * n) * p ≡ b * p + n * (128 * p)
group_times b n p =
    add-mul b (128 * n) p
    ∙ ap (λ t. b * p + t) (ap (λ t. t * p) (mul_comm 128 n) ∙ mul_assoc n 128 p)

uleb_loop-Uleb :
    (n shift value m : ℕ) (bs rest : List ℕ)
    → Uleb bs m
    → length bs ≤ n
    → value < 2 ^ shift
    → value + m * 2 ^ shift < 2 ^ 64
    → uleb_loop n shift value (bs ++ rest) ≡ (value + m * 2 ^ shift, rest)
unfolding uleb_loop read_u8
uleb_loop-Uleb zero shift value m bs rest (last h) short below fits = absurd (omega arith)
uleb_loop-Uleb zero shift value m bs rest (more h u) short below fits = absurd (omega arith)
uleb_loop-Uleb (suc n) shift value m bs rest (last h) short below fits =
    let low : bit_and m 0x7f ≡ m = low_bits m ∙ omega arith in
    let top : bit_and m 0x80 ≡ 0 = top_bit m ∙ omega arith in
    rw (low, top, gather shift value m below (omega arith)) refl
uleb_loop-Uleb (suc n) shift value m bs rest (more {b} {n = k} {bs = cs} h u) short below fits =
    let low : bit_and (b + 128) 0x7f ≡ b = low_bits (b + 128) ∙ omega arith in
    let top : bit_and (b + 128) 0x80 ≡ 128 = top_bit (b + 128) ∙ omega arith in
    let parts = group_times b k (2 ^ shift) in
    let bounded : b * 2 ^ shift ≤ 127 * 2 ^ shift = mul-le-mul_right (2 ^ shift) (omega arith) in
    let further : k * 2 ^ (shift + 7) ≡ k * (128 * 2 ^ shift) =
      ap (λ t. k * t) (next_group shift) in
    let here = gather shift value b below (omega (arith, parts)) in
    let rest_of =
      uleb_loop-Uleb n (shift + 7) (value + b * 2 ^ shift) k cs rest u (omega (arith, short))
        (omega (arith, below, next_group shift, bounded)) (omega (arith, parts, further)) in
    rw (low, top, here, rest_of) (ap (λ t. (t, rest)) (omega (arith, parts, further)))

-- Of at most ten bytes that encode a number below 2^64, followed by any others, the number is read, and
-- the cursor is behind them.
pub read_uleb128-Uleb :
    (m : ℕ) (bs rest : List ℕ)
    → Uleb bs m
    → length bs ≤ 10
    → m < 2 ^ 64
    → read_uleb128 (bs ++ rest) ≡ (m, rest)
read_uleb128-Uleb m bs rest u short fits =
    uleb_loop-Uleb 10 0 0 m bs rest u short (omega arith) (omega arith)
    ∙ ap (λ t. (t, rest)) (omega arith)
