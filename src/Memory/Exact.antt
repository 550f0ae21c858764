-- ===== src/Memory/Exact.antt =====
-- The contract of src/memory.c that its clients rely on: reads show the range, a successful write
-- changes the range alone, a failed one nothing. It holds of a kernel whose PT_WRITE_D is refused, as
-- on arm64, so that every write goes through Mach.
use macos_c_debugger_arm.Kernel.{Kernel}
use macos_c_debugger_arm.Kernel.Cells.{Cells, peek, poke, poke_shadow}
use macos_c_debugger_arm.Memory.{mem_read, mem_write, mem_write_mach, mem_write_ptrace}
use macos_c_debugger_arm.Memory.Contents.{
  mem_read-peek, write_without_task, write_by_mach, write_behind_mach,
}
use macos_c_debugger_arm.Memory.Laws.{VmLaws}
use macos_c_debugger_arm.Memory.Mach.{mem_write_mach-poke, mem_write_mach_fails}
use macos_c_debugger_arm.Prelude.{
  ℕ, ◌+◌, ◌^◌, ◌<◌, ◌≡◌, refl, ◌∙◌, inl, inr, true, false, some, List, [], ◌∷◌, arith, Option-cases,
  Bool-cases,
}

pub record ExactMemory (k : Kernel) (cells : k.World → ℕ → Cells) : Type 0 where
  pub reads :
      (w : k.World) (pid a n : ℕ) (bs : List ℕ)
      → a + n < 2 ^ 64
      → mem_read k w pid a n ≡ some bs
      → bs ≡ peek (cells w pid) a n
  pub writes :
      (w : k.World) (pid a : ℕ) (bs : List ℕ) (c : ℕ)
      → (mem_write k w pid a bs).1 ≡ true
      → cells (mem_write k w pid a bs).0 pid c ≡ poke (cells w pid) a bs c
  pub keeps :
      (w : k.World) (pid a : ℕ) (bs : List ℕ) (c : ℕ)
      → (mem_write k w pid a bs).1 ≡ false
      → cells (mem_write k w pid a bs).0 pid c ≡ cells w pid c

-- PT_WRITE_D always returns -1.
abbrev pub RefusesPtraceWrites : Kernel → Type 0
RefusesPtraceWrites k = (w : k.World) (pid a v : ℕ) → (k.pt_write_d w pid a v).1 ≡ false

module _ (k : Kernel) (cells : k.World → ℕ → Cells) (laws : VmLaws k cells)
    (refused : RefusesPtraceWrites k) where
  ptrace_writes :
      (w : k.World) (pid a : ℕ) (bs : List ℕ) (c : ℕ)
      → (mem_write_ptrace k w pid a bs).1 ≡ true
      → cells (mem_write_ptrace k w pid a bs).0 pid c ≡ poke (cells w pid) a bs c
  unfolding mem_write_ptrace poke
  ptrace_writes w pid a [] c done = refl
  ptrace_writes w pid a (b ∷ bs) c done = ground (arith, refused w pid a b)

  ptrace_keeps :
      (w : k.World) (pid a : ℕ) (bs : List ℕ) (c : ℕ)
      → cells (mem_write_ptrace k w pid a bs).0 pid c ≡ cells w pid c
  unfolding mem_write_ptrace
  ptrace_keeps w pid a [] c = refl
  ptrace_keeps w pid a (b ∷ bs) c =
      ground (arith, refused w pid a b, laws.pt_write_d_false w pid a b c)

  exact_writes :
      (w : k.World) (pid a : ℕ) (bs : List ℕ) (c : ℕ)
      → (mem_write k w pid a bs).1 ≡ true
      → cells (mem_write k w pid a bs).0 pid c ≡ poke (cells w pid) a bs c
  exact_writes w pid a bs c done = elim (Option-cases (k.task_for_pid w pid)) [
    | inl e ↦
        let path = write_without_task k w pid a bs e in
        rw path (ptrace_writes w pid a bs c (rw path at done))
    | inr (task, e) ↦ elim (Bool-cases (mem_write_mach k w task a bs).1) [
      | inl f ↦
          rw (write_by_mach k w pid a bs e f)
            (mem_write_mach-poke k cells laws w pid task a bs c e f)
      | inr f ↦
          let path = write_behind_mach k w pid a bs e f in
          let w1 = (mem_write_mach k w task a bs).0 in
          rw path (
            ptrace_writes w1 pid a bs c (rw path at done)
            ∙ poke_shadow (cells w pid) (cells w1 pid) a bs
                (λ d _. mem_write_mach_fails k cells laws w pid task a bs d f) c)
    ]
  ]

  exact_keeps :
      (w : k.World) (pid a : ℕ) (bs : List ℕ) (c : ℕ)
      → (mem_write k w pid a bs).1 ≡ false
      → cells (mem_write k w pid a bs).0 pid c ≡ cells w pid c
  exact_keeps w pid a bs c failed = elim (Option-cases (k.task_for_pid w pid)) [
    | inl e ↦ rw (write_without_task k w pid a bs e) (ptrace_keeps w pid a bs c)
    | inr (task, e) ↦ elim (Bool-cases (mem_write_mach k w task a bs).1) [
      | inl f ↦ let path = write_by_mach k w pid a bs e f in cc (rw path at failed)
      | inr f ↦ rw (write_behind_mach k w pid a bs e f) (
          ptrace_keeps (mem_write_mach k w task a bs).0 pid a bs c
          ∙ mem_write_mach_fails k cells laws w pid task a bs c f)
    ]
  ]

  pub laws-ExactMemory : ExactMemory k cells
  laws-ExactMemory = record {
    reads = mem_read-peek k cells laws;
    writes = exact_writes;
    keeps = exact_keeps;
  }
