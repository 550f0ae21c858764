-- ===== src/Prelude/Words.antt =====
-- Casts to the fixed widths of C, and byte strings in little-endian order.
use Prim.Native.Nat.{ℕ, zero, suc, ◌+◌, ◌-◌, ◌*◌, ◌/◌, ◌%◌, ◌^◌, ◌<◌}
use mathlib.Core.Path.{◌≡◌, refl}
use mathlib.Core.List.{List, [], ◌∷◌}
use native.Mathlib.Omega.{arith}
use macos_c_debugger_arm.Prelude.Lists.{length, All}

abbrev pub u8 : ℕ → ℕ
u8 n = n % 2 ^ 8

abbrev pub u16 : ℕ → ℕ
u16 n = n % 2 ^ 16

abbrev pub u32 : ℕ → ℕ
u32 n = n % 2 ^ 32

abbrev pub u64 : ℕ → ℕ
u64 n = n % 2 ^ 64

-- `a - b` in `uint64_t`.
abbrev pub sub64 : ℕ → ℕ → ℕ
sub64 a b = (a + 2 ^ 64 - b % 2 ^ 64) % 2 ^ 64

abbrev pub IsByte : ℕ → Type 0
IsByte b = b < 256

-- The object representation of a value in `n` bytes, and the value of a byte string.
abbrev pub bytes_of : ℕ → ℕ → List ℕ
bytes_of zero v = []
bytes_of (suc n) v = v % 256 ∷ bytes_of n (v / 256)

abbrev pub value_of : List ℕ → ℕ
value_of [] = 0
value_of (b ∷ bs) = b + 256 * value_of bs

pub length-bytes_of : (n v : ℕ) → length (bytes_of n v) ≡ n
length-bytes_of zero v = refl
length-bytes_of (suc n) v = omega (arith, length-bytes_of n (v / 256))

pub value_of-bytes_of_4 : (v : ℕ) → v < 2 ^ 32 → value_of (bytes_of 4 v) ≡ v
value_of-bytes_of_4 v h = omega arith

pub value_of-bytes_of_8 : (v : ℕ) → v < 2 ^ 64 → value_of (bytes_of 8 v) ≡ v
value_of-bytes_of_8 v h = omega arith

pub bytes_of-value_of : (bs : List ℕ) → All IsByte bs → bytes_of (length bs) (value_of bs) ≡ bs
bytes_of-value_of [] h = refl
bytes_of-value_of (b ∷ bs) h = ground (arith, bytes_of-value_of bs h.1)
