-- ===== src/Values/Widths.antt =====
-- What `read_scalar_value` of src/debugger.c reads back of what `write_scalar_value` has written, and the cuts to a
-- size.
use macos_c_debugger_arm.Kernel.{Kernel}
use macos_c_debugger_arm.Kernel.Cells.{Cells, peek}
use macos_c_debugger_arm.Memory.{mem_read, mem_write}
use macos_c_debugger_arm.Memory.Contents.{Holds, mem_write-Holds, mem_read-peek}
use macos_c_debugger_arm.Memory.Laws.{VmLaws}
use macos_c_debugger_arm.Prelude.{
  ℕ, zero, suc, ◌+◌, ◌/◌, ◌^◌, ◌<◌, ◌≡◌, refl, ap, ap₂, sym, ◌∙◌, inl, inr, some, List, [], ◌∷◌,
  arith, All, IsByte, length, length-bytes_of, bytes_of, value_of, Option-cases, true,
}
use macos_c_debugger_arm.Values.{scalar_size, read_scalar_value, write_scalar_value}
use native.Mathlib.Nat.{pow-suc}

bytes_of-IsByte : (n v : ℕ) → All IsByte (bytes_of n v)
bytes_of-IsByte zero v = tt
bytes_of-IsByte (suc n) v = (omega arith, bytes_of-IsByte n (v / 256))

value_of-bytes_of : (n v : ℕ) → v < 256 ^ n → value_of (bytes_of n v) ≡ v
value_of-bytes_of zero v h = omega arith
value_of-bytes_of (suc n) v h =
    omega (arith, value_of-bytes_of n (v / 256) (omega (arith, h, pow-suc 256 n)))

peek-Holds : (m : Cells) (a : ℕ) (bs : List ℕ) → Holds m a bs → peek m a (length bs) ≡ bs
unfolding peek
peek-Holds m a [] h = refl
peek-Holds m a (b ∷ bs) h =
    ap₂ (λ x xs. x ∷ xs) (ap m (omega arith) ∙ h 0 (omega arith))
      (peek-Holds m (a + 1) bs (λ i l. ap m (omega arith) ∙ h (suc i) (omega (arith, l))))

module _ (k : Kernel) (cells : k.World → ℕ → Cells) (laws : VmLaws k cells) where
  -- Over a system whose calls do what is documented, a value that fits the size, after a write of it
  -- within the address space that succeeds, is what a successful read of the same place and size returns.
  pub read_scalar_value-write_scalar_value :
      (w : k.World) (pid a size value x : ℕ)
      → a + scalar_size size + 3 < 2 ^ 64
      → value < 256 ^ scalar_size size
      → (write_scalar_value k w pid a size value).1 ≡ true
      → read_scalar_value k (write_scalar_value k w pid a size value).0 pid a size ≡ some x
      → x ≡ value
  unfolding write_scalar_value read_scalar_value
  read_scalar_value-write_scalar_value w pid a size value x fits small done h =
      let n = scalar_size size in
      let bs = bytes_of n value in
      let long = length-bytes_of n value in
      let w' = (mem_write k w pid a bs).0 in
      let holds =
        mem_write-Holds k cells laws w pid a bs (bytes_of-IsByte n value)
          (omega (arith, long, fits)) done in
      elim (Option-cases (mem_read k w' pid a n)) [
        | inl e ↦ cc (rw e at h)
        | inr (found, e) ↦
            let read = mem_read-peek k cells laws w' pid a n found (omega (arith, fits)) e in
            let same : found ≡ bs =
              read
              ∙ ap (λ t. peek (cells w' pid) a t) (sym long)
              ∙ peek-Holds (cells w' pid) a bs holds in
            let both : some (value_of found) ≡ some x = rw e at h in
            let got : value_of found ≡ x = cc in
            sym got ∙ ap value_of same ∙ value_of-bytes_of n value small
      ]
