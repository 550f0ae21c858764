-- ===== src/Breakpoint/Restore.antt =====
-- What `cdbg_bp_enable` and `cdbg_bp_disable` of src/breakpoint.c do to the memory of the process, over
-- a memory layer that keeps its contract.
use macos_c_debugger_arm.Breakpoint.{Breakpoint, trap_inst, bp_enable, bp_disable}
use macos_c_debugger_arm.Kernel.{Kernel}
use macos_c_debugger_arm.Kernel.Cells.{Cells, peek, poke, length-peek, peek_same, peek-poke}
use macos_c_debugger_arm.Memory.{mem_read, mem_write}
use macos_c_debugger_arm.Memory.Exact.{ExactMemory}
use macos_c_debugger_arm.Prelude.{
  ℕ, zero, suc, ◌+◌, ◌^◌, ◌≤◌, ◌<◌, ◌≡◌, refl, ap, sym, ◌∙◌, ◌⊎◌, inl, inr, true, false, List,
  arith, All, IsByte, bytes_of, value_of, bytes_of-value_of, Option-cases, Bool-cases,
}

abbrev pub trap_bytes : List ℕ
trap_bytes = bytes_of 4 trap_inst

-- The breakpoint that `bp_enable` leaves when it succeeds over the memory `m`.
abbrev pub armed_over : Cells → ℕ → Breakpoint
armed_over m addr = record { addr = addr; saved_inst = value_of (peek m addr 4); enabled = true }

abbrev pub Outside : ℕ → ℕ → Type 0
Outside addr c = (c < addr) ⊎ (addr + 4 ≤ c)

peek-bytes : (m : Cells) (a n : ℕ) → ((c : ℕ) → m c < 256) → All IsByte (peek m a n)
unfolding peek
peek-bytes m a zero h = tt
peek-bytes m a (suc n) h = (h a, peek-bytes m (a + 1) n h)

saved_bytes :
    (m : Cells) (a : ℕ) → ((c : ℕ) → m c < 256) → bytes_of 4 (value_of (peek m a 4)) ≡ peek m a 4
saved_bytes m a h =
    ap (λ n. bytes_of n (value_of (peek m a 4))) (sym (length-peek m a 4))
    ∙ bytes_of-value_of (peek m a 4) (peek-bytes m a 4 h)

module _ (k : Kernel) (cells : k.World → ℕ → Cells) (memory : ExactMemory k cells) where
  -- Over a memory layer that keeps its contract, an enable within the address space that succeeds saves
  -- the four bytes at the address, and leaves BRK #0 there and every other byte as it was.
  bp_enable-armed :
      (bp : Breakpoint) (w : k.World) (pid addr : ℕ)
      → addr + 4 < 2 ^ 64
      → (bp_enable k bp w pid addr).2 ≡ true
      → ((bp_enable k bp w pid addr).0 ≡ armed_over (cells w pid) addr)
        × ((c : ℕ)
            → cells (bp_enable k bp w pid addr).1 pid c ≡ poke (cells w pid) addr trap_bytes c)
  unfolding bp_enable
  bp_enable-armed bp w pid addr fits done = elim (Option-cases (mem_read k w pid addr 4)) [
    | inl e ↦ ground arith
    | inr (inst, e) ↦
        let shown : inst ≡ peek (cells w pid) addr 4 = memory.reads w pid addr 4 inst fits e in
        elim (Bool-cases (mem_write k w pid addr trap_bytes).1) [
          | inl f ↦ (
            rw (e, bp_enable, f)
                (λ i. record { addr = addr; saved_inst = value_of (shown i); enabled = true }),
            λ c. rw (e, bp_enable, f) (memory.writes w pid addr trap_bytes c f),
          )
          | inr f ↦ ground arith
        ]
  ]

  -- Over a memory layer that keeps its contract, an enable that fails leaves a disabled breakpoint
  -- disabled, and the memory as it was.
  bp_enable_fails :
      (bp : Breakpoint) (w : k.World) (pid addr : ℕ)
      → bp.enabled ≡ false
      → (bp_enable k bp w pid addr).2 ≡ false
      → ((bp_enable k bp w pid addr).0.enabled ≡ false)
        × ((c : ℕ) → cells (bp_enable k bp w pid addr).1 pid c ≡ cells w pid c)
  unfolding bp_enable
  bp_enable_fails bp w pid addr off failed = elim (Option-cases (mem_read k w pid addr 4)) [
    | inl e ↦ (ground arith, λ c. rw (e, bp_enable))
    | inr (inst, e) ↦ elim (Bool-cases (mem_write k w pid addr trap_bytes).1) [
      | inl f ↦ ground arith
      | inr f ↦ (ground arith, λ c. rw (e, bp_enable, f) (memory.keeps w pid addr trap_bytes c f))
    ]
  ]

  -- A disable that succeeds leaves the breakpoint disabled and writes the saved instruction back.
  pub bp_disable-restored :
      (bp : Breakpoint) (w : k.World) (pid : ℕ)
      → bp.enabled ≡ true
      → (bp_disable k bp w pid).2 ≡ true
      → ((bp_disable k bp w pid).0 ≡ record bp { enabled = false })
        × ((c : ℕ)
            → cells (bp_disable k bp w pid).1 pid c
              ≡ poke (cells w pid) bp.addr (bytes_of 4 bp.saved_inst) c)
  unfolding bp_disable
  bp_disable-restored bp w pid on done =
      elim (Bool-cases (mem_write k w pid bp.addr (bytes_of 4 bp.saved_inst)).1) [
        | inl f ↦ (
          ground arith,
          λ c. rw (bp_disable, on, f) (memory.writes w pid bp.addr (bytes_of 4 bp.saved_inst) c f),
        )
        | inr f ↦ ground arith
      ]

  -- Over a memory layer that keeps its contract and a memory of bytes, if enabling a breakpoint succeeds,
  -- then disabling it in any system, if that succeeds, leaves it disabled and the four bytes at its
  -- address as they were before the enable, and every other byte as the system before the disable has it.
  pub bp_disable-bp_enable :
      (bp : Breakpoint) (w w' : k.World) (pid addr : ℕ)
      → addr + 4 < 2 ^ 64
      → ((c : ℕ) → cells w pid c < 256)
      → (bp_enable k bp w pid addr).2 ≡ true
      → (bp_disable k (bp_enable k bp w pid addr).0 w' pid).2 ≡ true
      → ((bp_disable k (bp_enable k bp w pid addr).0 w' pid).0.enabled ≡ false)
        × ((c : ℕ)
            → cells (bp_disable k (bp_enable k bp w pid addr).0 w' pid).1 pid c
              ≡ poke (cells w' pid) addr (peek (cells w pid) addr 4) c)
  bp_disable-bp_enable bp w w' pid addr fits bytes set unset =
      let armed = (bp_enable-armed bp w pid addr fits set).0 in
      let off =
        bp_disable-restored (armed_over (cells w pid) addr) w' pid refl (rw armed at unset) in
      rw armed (
        ap (λ (b : Breakpoint). b.enabled) off.0,
        λ c.
            off.1 c
            ∙ ap (λ bs. poke (cells w' pid) addr bs c) (saved_bytes (cells w pid) addr bytes),
      )

  -- Over a memory layer that keeps its contract, if two breakpoints are enabled at one address, both
  -- successfully, then disabling the second later, if that succeeds, leaves BRK #0 at the address and
  -- every other byte as it was before the disable.
  pub stacked_breakpoints :
      (b c : Breakpoint) (w w3 : k.World) (pid addr : ℕ)
      → addr + 4 < 2 ^ 64
      → (bp_enable k b w pid addr).2 ≡ true
      → (bp_enable k c (bp_enable k b w pid addr).1 pid addr).2 ≡ true
      → (bp_disable k (bp_enable k c (bp_enable k b w pid addr).1 pid addr).0 w3 pid).2 ≡ true
      → (a : ℕ)
      → cells (bp_disable k (bp_enable k c (bp_enable k b w pid addr).1 pid addr).0 w3 pid).1 pid a
        ≡ poke (cells w3 pid) addr trap_bytes a
  stacked_breakpoints b c w w3 pid addr fits set1 set2 unset2 a =
      let w1 = (bp_enable k b w pid addr).1 in
      let first = bp_enable-armed b w pid addr fits set1 in
      let second = bp_enable-armed c w1 pid addr fits set2 in
      let seen : peek (cells w1 pid) addr 4 ≡ trap_bytes =
        peek_same (cells w1 pid) (poke (cells w pid) addr trap_bytes) addr 4 (λ d _ _. first.1 d)
        ∙ peek-poke (cells w pid) addr trap_bytes in
      let off =
        bp_disable-restored (armed_over (cells w1 pid) addr) w3 pid refl (rw second.0 at unset2) in
      rw second.0 (off.1 a ∙ ap (λ bs. poke (cells w3 pid) addr (bytes_of 4 (value_of bs)) a) seen)
