-- ===== src/Memory/Mach.antt =====
-- `mem_write_mach` of src/memory.c: a write through the task port, with the page opened on demand.
use macos_c_debugger_arm.Kernel.{Kernel, Protection}
use macos_c_debugger_arm.Kernel.Cells.{Cells, poke, poke_shadow}
use macos_c_debugger_arm.Memory.{mem_write_mach, complement64}
use macos_c_debugger_arm.Memory.Laws.{VmLaws}
use macos_c_debugger_arm.Prelude.{
  ℕ, ◌-◌, ◌≡◌, ◌∙◌, inl, inr, true, false, some, List, arith, Option-cases, Bool-cases, bit_and,
}

module _ (k : Kernel) (cells : k.World → ℕ → Cells) (laws : VmLaws k cells) where
  -- The write is done exactly when 0 is returned, also where the page had to be opened first.
  pub mem_write_mach-poke :
      (w : k.World) (pid task a : ℕ) (bs : List ℕ) (c : ℕ)
      → k.task_for_pid w pid ≡ some task
      → (mem_write_mach k w task a bs).1 ≡ true
      → cells (mem_write_mach k w task a bs).0 pid c ≡ poke (cells w pid) a bs c
  unfolding mem_write_mach
  mem_write_mach-poke w pid task a bs c port done = elim (Bool-cases (k.vm_write w task a bs).1) [
    | inl e ↦ rw e (laws.vm_write_true w pid task a bs c port e)
    | inr e ↦
        let w1 = (k.vm_write w task a bs).0 in
        elim (Option-cases (k.page_size w1)) [
          | inl f ↦ ground arith
          | inr (size, f) ↦
              let page = bit_and a (complement64 (size - 1)) in
              let opened = k.vm_protect w1 task page size Protection.read_write_copy in
              elim (Bool-cases opened.1) [
                | inl g ↦
                    let w2 = opened.0 in
                    elim (Bool-cases (k.vm_write w2 task a bs).1) [
                      | inl h ↦
                          rw (e, f, g)
                            (laws.vm_protect_cells (k.vm_write w2 task a bs).0 pid task page size
                                Protection.read_execute c
                              ∙ laws.vm_write_true w2 pid task a bs c
                                  (laws.vm_protect_task w1 pid task page size
                                      Protection.read_write_copy
                                    ∙ laws.vm_write_task w pid task a bs
                                    ∙ port)
                                  h
                              ∙ poke_shadow (cells w pid) (cells w2 pid) a bs
                                  (λ d _.
                                    laws.vm_protect_cells w1 pid task page size
                                      Protection.read_write_copy d
                                    ∙ laws.vm_write_false w pid task a bs d e)
                                  c)
                      | inr h ↦ ground arith
                    ]
                | inr g ↦ ground arith
              ]
        ]
  ]

  pub mem_write_mach_fails :
      (w : k.World) (pid task a : ℕ) (bs : List ℕ) (c : ℕ)
      → (mem_write_mach k w task a bs).1 ≡ false
      → cells (mem_write_mach k w task a bs).0 pid c ≡ cells w pid c
  unfolding mem_write_mach
  mem_write_mach_fails w pid task a bs c failed = elim (Bool-cases (k.vm_write w task a bs).1) [
    | inl e ↦ ground arith
    | inr e ↦
        let w1 = (k.vm_write w task a bs).0 in
        let kept = laws.vm_write_false w pid task a bs c e in
        elim (Option-cases (k.page_size w1)) [
          | inl f ↦ rw (e, f) kept
          | inr (size, f) ↦
              let page = bit_and a (complement64 (size - 1)) in
              let opened = k.vm_protect w1 task page size Protection.read_write_copy in
              let kept2 =
                laws.vm_protect_cells w1 pid task page size Protection.read_write_copy c in
              elim (Bool-cases opened.1) [
                | inl g ↦
                    let w2 = opened.0 in
                    elim (Bool-cases (k.vm_write w2 task a bs).1) [
                      | inl h ↦ ground arith
                      | inr h ↦
                          rw (e, f, g)
                            (laws.vm_protect_cells (k.vm_write w2 task a bs).0 pid task page size
                                Protection.read_execute c
                              ∙ laws.vm_write_false w2 pid task a bs c h
                              ∙ kept2
                              ∙ kept)
                    ]
                | inr g ↦ rw (e, f, g) (kept2 ∙ kept)
              ]
        ]
  ]
