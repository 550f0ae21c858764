-- ===== src/Values.antt =====
-- `read_scalar_value`, `write_scalar_value`, `sign_extend_value` and `mask_to_size` of src/debugger.c.
pub mod Text
pub mod Widths
mod Tests
use mathlib.Core.Option
use macos_c_debugger_arm.Kernel.{Kernel}
use macos_c_debugger_arm.Memory.{mem_read, mem_write}
use macos_c_debugger_arm.Prelude.{
  ℕ, ◌+◌, ◌-◌, ◌*◌, ◌^◌, Bool, not, ◌||◌, Option, List, ◌==◌, ltb, leb, if◌then◌else◌, bit_and,
  bit_or, bytes_of, value_of,
}

-- A size of 0, or above 8, is taken for 8.
abbrev pub scalar_size : ℕ → ℕ
scalar_size size = if size == 0 || ltb 8 size then 8 else size

module _ (k : Kernel) where
  unfoldable pub read_scalar_value : k.World → ℕ → ℕ → ℕ → Option ℕ
  unfolding mem_read
  read_scalar_value w pid addr size = Option.map value_of (mem_read k w pid addr (scalar_size size))

  unfoldable pub write_scalar_value : k.World → ℕ → ℕ → ℕ → ℕ → k.World × Bool
  unfolding mem_write
  write_scalar_value w pid addr size value =
      mem_write k w pid addr (bytes_of (scalar_size size) value)

-- An `int64_t` is the word that holds it.
unfoldable pub sign_extend_value : ℕ → ℕ → ℕ
sign_extend_value value size =
    if size == 0 || leb 8 size
    then value
    else let bits = size * 8 in
      let sign = 2 ^ (bits - 1) in
      let mask = 2 ^ bits - 1 in
      let kept = bit_and value mask in
      if not (bit_and kept sign == 0) then bit_or kept (2 ^ 64 - 1 - mask) else kept

unfoldable pub mask_to_size : ℕ → ℕ → ℕ
mask_to_size value size =
    if size == 0 || leb 8 size then value else bit_and value (2 ^ (size * 8) - 1)
