-- ===== src/Dwarf.antt =====
-- The readers of src/lineno.c that go through `.debug_line`. A cursor is the list of the bytes from `data` up to
-- `end`; a reader returns what it reads and the cursor behind it.
pub mod Program
pub mod Leb
pub mod Ends
pub mod Leaves
pub mod Machine
pub mod Matrix
pub mod Tables
pub mod Units
pub mod Load
mod Tests
use macos_c_debugger_arm.Prelude.{
  ℕ, zero, suc, ◌+◌, ◌*◌, ◌-◌, ◌^◌, true, false, not, ◌&&◌, List, [], ◌∷◌, ◌==◌, ltb, if◌then◌else◌,
  bit_and, bit_or, u64,
}

unfoldable pub read_u8 : List ℕ → ℕ × List ℕ
read_u8 [] = (0, [])
read_u8 (b ∷ bs) = (b, bs)

unfoldable pub read_u16 : List ℕ → ℕ × List ℕ
read_u16 (b0 ∷ b1 ∷ bs) = (bit_or b0 (b1 * 2 ^ 8), bs)
read_u16 bs = (0, bs)

unfoldable pub read_u32 : List ℕ → ℕ × List ℕ
read_u32 (b0 ∷ b1 ∷ b2 ∷ b3 ∷ bs) =
    (bit_or (bit_or (bit_or b0 (b1 * 2 ^ 8)) (b2 * 2 ^ 16)) (b3 * 2 ^ 24), bs)
read_u32 bs = (0, bs)

-- The rounds of read_u64 that are left, for the byte at bit `shift`.
unfoldable pub u64_loop : ℕ → ℕ → ℕ → List ℕ → ℕ × List ℕ
unfolding read_u8
u64_loop zero shift value bs = (value, bs)
u64_loop (suc n) shift value bs =
    let (b, rest) = read_u8 bs in u64_loop n (shift + 8) (bit_or value (b * 2 ^ shift)) rest

abbrev pub read_u64 : List ℕ → ℕ × List ℕ
read_u64 bs = u64_loop 8 0 0 bs

-- The rounds of read_uleb128 that are left.
unfoldable pub uleb_loop : ℕ → ℕ → ℕ → List ℕ → ℕ × List ℕ
unfolding read_u8
uleb_loop zero shift value bs = (value, bs)
uleb_loop (suc n) shift value bs =
    let (b, rest) = read_u8 bs in
    let value' = bit_or value (u64 (bit_and b 0x7f * 2 ^ shift)) in
    let more = uleb_loop n (shift + 7) value' rest in
    if bit_and b 0x80 == 0 then (value', rest) else more

abbrev pub read_uleb128 : List ℕ → ℕ × List ℕ
read_uleb128 bs = uleb_loop 10 0 0 bs

-- `value |= ~0ULL << shift` where the last byte has the sign.
unfoldable pub extend_sign : ℕ → ℕ → ℕ → ℕ
extend_sign b shift value =
    if not (bit_and b 0x40 == 0) && ltb shift 64
    then bit_or value (u64 ((2 ^ 64 - 1) * 2 ^ shift))
    else value

-- The rounds of read_sleb128 that are left, `b` the byte read last.
unfoldable pub sleb_loop : ℕ → ℕ → ℕ → ℕ → List ℕ → ℕ × List ℕ
unfolding read_u8 extend_sign
sleb_loop zero b shift value bs = (extend_sign b shift value, bs)
sleb_loop (suc n) last shift value bs =
    let (b, rest) = read_u8 bs in
    let value' = bit_or value (u64 (bit_and b 0x7f * 2 ^ shift)) in
    let more = sleb_loop n b (shift + 7) value' rest in
    if bit_and b 0x80 == 0 then (extend_sign b (shift + 7) value', rest) else more

-- An `int64_t` is the word that holds it.
abbrev pub read_sleb128 : List ℕ → ℕ × List ℕ
read_sleb128 bs = sleb_loop 10 0 0 0 bs
