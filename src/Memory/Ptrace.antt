-- ===== src/Memory/Ptrace.antt =====
-- The ptrace loops of src/memory.c, `mem_read_ptrace` and `mem_write_ptrace`, under the documented
-- behaviour of PT_READ_D and PT_WRITE_D.
use macos_c_debugger_arm.Kernel.{Kernel}
use macos_c_debugger_arm.Kernel.Cells.{Cells, peek, poke, poke_outside, poke_shadow}
use macos_c_debugger_arm.Memory.{mem_read_ptrace, mem_write_ptrace}
use macos_c_debugger_arm.Memory.Laws.{VmLaws}
use macos_c_debugger_arm.Prelude.{
  ℕ, zero, suc, ◌+◌, ◌^◌, ◌≤◌, ◌<◌, ◌≡◌, refl, ap, ap₂, sym, ◌∙◌, ◌⊎◌, inl, inr, true, some, List,
  [], ◌∷◌, ◌++◌, length, length-append, arith, u8, u64, All, IsByte, bytes_of, Option-cases,
  Bool-cases,
}

-- The three bytes that the last PT_WRITE_D puts behind the buffer.
abbrev pub spill : List ℕ
spill = 0 ∷ 0 ∷ 0 ∷ []

-- The loop reads the bytes of its range.
pub mem_read_ptrace-peek :
    (k : Kernel) (cells : k.World → ℕ → Cells) (laws : VmLaws k cells) (w : k.World) (pid a n : ℕ)
    (bs : List ℕ)
    → a + n < 2 ^ 64
    → mem_read_ptrace k w pid a n ≡ some bs
    → bs ≡ peek (cells w pid) a n
unfolding mem_read_ptrace peek
mem_read_ptrace-peek k cells laws w pid a zero bs fits h = ground arith
mem_read_ptrace-peek k cells laws w pid a (suc n) bs fits h =
    elim (Option-cases (k.pt_read_d w pid a)) [
      | inl e ↦ ground arith
      | inr (word, e) ↦
          let same : u64 (a + 1) ≡ a + 1 = omega arith in
          elim (Option-cases (mem_read_ptrace k w pid (u64 (a + 1)) n)) [
            | inl f ↦ ground arith
            | inr (rest, f) ↦
                let ih =
                  mem_read_ptrace-peek k cells laws w pid (a + 1) n rest (omega arith)
                    (ap (λ t. mem_read_ptrace k w pid t n) (sym same) ∙ f) in
                let head = laws.pt_read_d_some w pid a word e in
                let whole : bs ≡ u8 word ∷ rest = ground arith in whole ∙ ap₂ ◌∷◌ head ih
          ]
    ]

-- Outside the rest of the buffer and its spill, one PT_WRITE_D is a write of one byte.
int_outside :
    (m : Cells) (a b n c : ℕ)
    → b < 256
    → (c < a + 1) ⊎ (a + 1 + (n + 3) ≤ c)
    → poke m a (bytes_of 4 b) c ≡ poke m a (b ∷ []) c
unfolding poke
int_outside m a b n c byte out = ground arith

-- So a PT_WRITE_D and then the rest of the buffer leave only the rest's spill.
poke_int-poke :
    (m : Cells) (a b : ℕ) (bs : List ℕ) (c : ℕ)
    → b < 256
    → poke (poke m a (bytes_of 4 b)) (a + 1) (bs ++ spill) c ≡ poke m a (b ∷ (bs ++ spill)) c
unfolding poke
poke_int-poke m a b bs c byte =
    poke_shadow (poke m a (b ∷ [])) (poke m a (bytes_of 4 b)) (a + 1) (bs ++ spill)
      (λ d out. int_outside m a b (length bs) d byte (ground (arith, length-append bs spill))) c

last_int : (b : ℕ) → b < 256 → bytes_of 4 b ≡ b ∷ spill
last_int b h = ground arith

module _ (k : Kernel) (cells : k.World → ℕ → Cells) (laws : VmLaws k cells) where
  -- After a success the memory holds the buffer and, behind it, three zero bytes.
  pub mem_write_ptrace-poke :
      (w : k.World) (pid a b : ℕ) (bs : List ℕ) (c : ℕ)
      → All IsByte (b ∷ bs)
      → a + length bs + 4 < 2 ^ 64
      → (mem_write_ptrace k w pid a (b ∷ bs)).1 ≡ true
      → cells (mem_write_ptrace k w pid a (b ∷ bs)).0 pid c
        ≡ poke (cells w pid) a (b ∷ (bs ++ spill)) c
  unfolding mem_write_ptrace
  mem_write_ptrace-poke w pid a b [] c bytes fits done =
      elim (Bool-cases (k.pt_write_d w pid a b).1) [
        | inl e ↦ rw e (laws.pt_write_d_true w pid a b c e ∙ rw (last_int b bytes.0))
        | inr e ↦ ground arith
      ]
  mem_write_ptrace-poke w pid a b (b' ∷ bs) c bytes fits done =
      let same : u64 (a + 1) ≡ a + 1 = omega arith in
      let w1 = (k.pt_write_d w pid a b).0 in
      elim (Bool-cases (k.pt_write_d w pid a b).1) [
        | inl e ↦
            rw (e, same)
              (mem_write_ptrace-poke w1 pid (a + 1) b' bs c bytes.1 (omega arith)
                  (rw (e, same) at done)
                ∙ poke_shadow (poke (cells w pid) a (bytes_of 4 b)) (cells w1 pid) (a + 1)
                    (b' ∷ (bs ++ spill)) (λ d _. laws.pt_write_d_true w pid a b d e) c
                ∙ poke_int-poke (cells w pid) a b (b' ∷ bs) c bytes.0)
        | inr e ↦ ground arith
      ]

  -- Whether or not it succeeds, the loop changes nothing but its range and the three bytes behind.
  pub mem_write_ptrace_outside :
      (w : k.World) (pid a : ℕ) (bs : List ℕ) (c : ℕ)
      → a + length bs + 3 < 2 ^ 64
      → (c < a) ⊎ (a + length bs + 3 ≤ c)
      → cells (mem_write_ptrace k w pid a bs).0 pid c ≡ cells w pid c
  unfolding mem_write_ptrace
  mem_write_ptrace_outside w pid a [] c fits out = refl
  mem_write_ptrace_outside w pid a (b ∷ bs) c fits out =
      let same : u64 (a + 1) ≡ a + 1 = omega arith in
      let w1 = (k.pt_write_d w pid a b).0 in
      elim (Bool-cases (k.pt_write_d w pid a b).1) [
        | inl e ↦
            rw (e, same)
              (mem_write_ptrace_outside w1 pid (a + 1) bs c (omega arith) (ground arith)
                ∙ laws.pt_write_d_true w pid a b c e
                ∙ poke_outside (cells w pid) a (bytes_of 4 b) c (ground arith))
        | inr e ↦ rw e (laws.pt_write_d_false w pid a b c e)
      ]
