-- ===== src/Memory/Contents.antt =====
-- `cdbg_mem_read` and `cdbg_mem_write` of src/memory.c as a whole: the Mach path, and ptrace behind it.
use macos_c_debugger_arm.Kernel.{Kernel}
use macos_c_debugger_arm.Kernel.Cells.{Cells, peek, poke_outside, poke_inside}
use macos_c_debugger_arm.Memory.{mem_read, mem_write, mem_write_mach, mem_write_ptrace}
use macos_c_debugger_arm.Memory.Laws.{VmLaws}
use macos_c_debugger_arm.Memory.Mach.{mem_write_mach-poke, mem_write_mach_fails}
use macos_c_debugger_arm.Memory.Ptrace.{
  spill, mem_read_ptrace-peek, mem_write_ptrace-poke, mem_write_ptrace_outside,
}
use macos_c_debugger_arm.Prelude.{
  ℕ, zero, suc, ◌+◌, ◌^◌, ◌≤◌, ◌<◌, ◌≡◌, refl, ap, ◌∙◌, ◌⊎◌, inl, inr, true, false, some, none,
  List, [], ◌∷◌, ◌++◌, length, length-append, get_or, arith, All, IsByte, Option-cases, Bool-cases,
  ◌==◌,
}

-- What a successful write of the buffer `bs` at `a` leaves: the bytes in their places.
abbrev pub Holds : Cells → ℕ → List ℕ → Type 0
Holds m a bs = (i : ℕ) → i < length bs → m (a + i) ≡ get_or bs i 0

-- Nothing changed but the range and at most three bytes behind it.
abbrev pub SameBeyond : Cells → Cells → ℕ → ℕ → Type 0
SameBeyond m m' a n = (c : ℕ) → (c < a) ⊎ (a + n + 3 ≤ c) → m' c ≡ m c

get_or-append : (bs cs : List ℕ) (i : ℕ) → i < length bs → get_or (bs ++ cs) i 0 ≡ get_or bs i 0
get_or-append [] cs i h = elim h [ ]
get_or-append (b ∷ bs) cs zero h = refl
get_or-append (b ∷ bs) cs (suc i) h = get_or-append bs cs i (omega arith)

get_or-append_right : (bs cs : List ℕ) (i : ℕ) → get_or (bs ++ cs) (length bs + i) 0 ≡ get_or cs i 0
get_or-append_right [] cs i = ap (λ t. get_or cs t 0) (omega arith)
get_or-append_right (b ∷ bs) cs i =
    let e : suc (length bs) + i ≡ suc (length bs + i) = omega arith in
    rw e (get_or-append_right bs cs i)

-- `mem_write`, path by path.
module _ (k : Kernel) (w : k.World) (pid a : ℕ) (bs : List ℕ) where
  pub write_without_task :
      k.task_for_pid w pid ≡ none → mem_write k w pid a bs ≡ mem_write_ptrace k w pid a bs
  unfolding mem_write
  write_without_task e = rw (e, mem_write)

  pub write_by_mach :
      {task : ℕ}
      → k.task_for_pid w pid ≡ some task
      → (mem_write_mach k w task a bs).1 ≡ true
      → mem_write k w pid a bs ≡ ((mem_write_mach k w task a bs).0, true)
  unfolding mem_write
  write_by_mach e f = rw (e, mem_write, f)

  pub write_behind_mach :
      {task : ℕ}
      → k.task_for_pid w pid ≡ some task
      → (mem_write_mach k w task a bs).1 ≡ false
      → mem_write k w pid a bs ≡ mem_write_ptrace k (mem_write_mach k w task a bs).0 pid a bs
  unfolding mem_write
  write_behind_mach e f = rw (e, mem_write, f)

module _ (k : Kernel) (cells : k.World → ℕ → Cells) (laws : VmLaws k cells) where
  -- Over a system whose calls do what is documented, the bytes that a read within the address space
  -- returns are those of the memory at the address.
  pub mem_read-peek :
      (w : k.World) (pid a n : ℕ) (bs : List ℕ)
      → a + n < 2 ^ 64
      → mem_read k w pid a n ≡ some bs
      → bs ≡ peek (cells w pid) a n
  unfolding mem_read
  mem_read-peek w pid a n bs fits h =
      let by_ptrace = mem_read_ptrace-peek k cells laws w pid a n bs fits in
      elim (Option-cases (k.task_for_pid w pid)) [
        | inl e ↦ by_ptrace (rw (e, mem_read) at h)
        | inr (task, e) ↦ elim (Option-cases (k.vm_read w task a n)) [
          | inl f ↦ by_ptrace (rw (e, mem_read, f) at h)
          | inr (got, f) ↦ elim (Bool-cases (length got == n)) [
            | inl g ↦
                let same : bs ≡ got = cc (rw (e, mem_read, f, g) at h) in
                let long : length got ≡ n = ground arith in
                same
                ∙ laws.vm_read_some w pid task a n got e f
                ∙ ap (λ t. peek (cells w pid) a t) long
            | inr g ↦ by_ptrace (rw (e, mem_read, f, g) at h)
          ]
        ]
      ]

  -- The ptrace loop alone, in the words of `Holds`.
  ptrace_holds :
      (w : k.World) (pid a : ℕ) (bs : List ℕ) (i : ℕ)
      → All IsByte bs
      → a + length bs + 3 < 2 ^ 64
      → (mem_write_ptrace k w pid a bs).1 ≡ true
      → i < length bs
      → cells (mem_write_ptrace k w pid a bs).0 pid (a + i) ≡ get_or bs i 0
  ptrace_holds w pid a [] i bytes fits done h = elim h [ ]
  ptrace_holds w pid a (b ∷ bs) i bytes fits done h =
      mem_write_ptrace-poke k cells laws w pid a b bs (a + i) bytes (omega arith) done
      ∙ poke_inside (cells w pid) a (b ∷ bs ++ spill) i 0
          (omega (arith, length-append (b ∷ bs) spill))
      ∙ get_or-append (b ∷ bs) spill i h

  pub mem_write-Holds :
      (w : k.World) (pid a : ℕ) (bs : List ℕ)
      → All IsByte bs
      → a + length bs + 3 < 2 ^ 64
      → (mem_write k w pid a bs).1 ≡ true
      → Holds (cells (mem_write k w pid a bs).0 pid) a bs
  mem_write-Holds w pid a bs bytes fits done i h = elim (Option-cases (k.task_for_pid w pid)) [
    | inl e ↦
        let path = write_without_task k w pid a bs e in
        rw path (ptrace_holds w pid a bs i bytes fits (rw path at done) h)
    | inr (task, e) ↦ elim (Bool-cases (mem_write_mach k w task a bs).1) [
      | inl f ↦ rw (write_by_mach k w pid a bs e f) (
          mem_write_mach-poke k cells laws w pid task a bs (a + i) e f
          ∙ poke_inside (cells w pid) a bs i 0 h)
      | inr f ↦
          let path = write_behind_mach k w pid a bs e f in
          rw path (
            ptrace_holds (mem_write_mach k w task a bs).0 pid a bs i bytes fits (rw path at done) h)
    ]
  ]

  -- Over a system whose calls do what is documented, a write within the address space changes no byte
  -- before the buffer or more than three bytes behind it, whether or not it succeeds.
  mem_write-SameBeyond :
      (w : k.World) (pid a : ℕ) (bs : List ℕ)
      → a + length bs + 3 < 2 ^ 64
      → SameBeyond (cells w pid) (cells (mem_write k w pid a bs).0 pid) a (length bs)
  mem_write-SameBeyond w pid a bs fits c out = elim (Option-cases (k.task_for_pid w pid)) [
    | inl e ↦
        rw (write_without_task k w pid a bs e)
          (mem_write_ptrace_outside k cells laws w pid a bs c fits out)
    | inr (task, e) ↦
        let w1 = (mem_write_mach k w task a bs).0 in
        elim (Bool-cases (mem_write_mach k w task a bs).1) [
          | inl f ↦ rw (write_by_mach k w pid a bs e f) (
              mem_write_mach-poke k cells laws w pid task a bs c e f
              ∙ poke_outside (cells w pid) a bs c (ground arith))
          | inr f ↦ rw (write_behind_mach k w pid a bs e f) (
              mem_write_ptrace_outside k cells laws w1 pid a bs c fits out
              ∙ mem_write_mach_fails k cells laws w pid task a bs c f)
        ]
  ]

  -- Over a system whose calls do what is documented and that gives no task port, a write of a buffer that
  -- is not empty, within the address space, that succeeds leaves 0 in each of the three bytes behind the
  -- buffer.
  pub mem_write_spills :
      (w : k.World) (pid a b : ℕ) (bs : List ℕ) (j : ℕ)
      → All IsByte (b ∷ bs)
      → a + length (b ∷ bs) + 3 < 2 ^ 64
      → k.task_for_pid w pid ≡ none
      → (mem_write k w pid a (b ∷ bs)).1 ≡ true
      → j < 3
      → cells (mem_write k w pid a (b ∷ bs)).0 pid (a + (length (b ∷ bs) + j)) ≡ 0
  mem_write_spills w pid a b bs j bytes fits e done h =
      let path = write_without_task k w pid a (b ∷ bs) e in
      rw path (
        mem_write_ptrace-poke k cells laws w pid a b bs (a + (length (b ∷ bs) + j)) bytes
          (omega arith) (rw path at done)
        ∙ poke_inside (cells w pid) a (b ∷ bs ++ spill) (length (b ∷ bs) + j) 0
            (omega (arith, length-append (b ∷ bs) spill))
        ∙ get_or-append_right (b ∷ bs) spill j
        ∙ zeros j h)
    where
      zeros : (i : ℕ) → i < 3 → get_or spill i 0 ≡ 0
      zeros zero lt = refl
      zeros (suc zero) lt = refl
      zeros (suc (suc i)) lt = ground arith
