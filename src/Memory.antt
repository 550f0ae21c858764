-- ===== src/Memory.antt =====
-- src/memory.c: reading and writing the traced process, through Mach and with ptrace as the way out.
-- A read that fails is `none`; a write returns the system after it and whether it returned 0.
-- Task ports are numbers, and giving a port or a kernel buffer back is left out, since no other call
-- depends on it.
pub mod Laws
pub mod Ptrace
pub mod Mach
pub mod Contents
pub mod Exact
mod Tests
use mathlib.Core.Option
use macos_c_debugger_arm.Kernel.{Kernel, Protection}
use macos_c_debugger_arm.Prelude.{
  ℕ, zero, suc, ◌+◌, ◌-◌, ◌^◌, Bool, true, false, Option, none, some, List, [], ◌∷◌, length, ◌==◌,
  if◌then◌else◌, u8, u64, value_of, bytes_of, bit_and,
}

-- `~x` in 64 bits.
abbrev pub complement64 : ℕ → ℕ
complement64 x = 2 ^ 64 - 1 - x

module _ (k : Kernel) where
  open k use {World, task_for_pid, vm_read, vm_write, vm_protect, page_size, pt_read_d, pt_write_d}

  -- The loop over the bytes that are left; `addr + i` is kept as the running address.
  unfoldable pub mem_read_ptrace : World → ℕ → ℕ → ℕ → Option (List ℕ)
  mem_read_ptrace w pid addr zero = some []
  mem_read_ptrace w pid addr (suc len) =
      let rest = mem_read_ptrace w pid (u64 (addr + 1)) len in
      elim (pt_read_d w pid addr) [
        | none ↦ none
        | some word ↦ Option.map (λ bytes. u8 word ∷ bytes) rest
      ]

  unfoldable pub mem_write_ptrace : World → ℕ → ℕ → List ℕ → World × Bool
  mem_write_ptrace w pid addr [] = (w, true)
  mem_write_ptrace w pid addr (b ∷ buf) =
      let (w', done) = pt_write_d w pid addr b in
      let rest = mem_write_ptrace w' pid (u64 (addr + 1)) buf in if done then rest else (w', false)

  unfoldable pub mem_write_mach : World → ℕ → ℕ → List ℕ → World × Bool
  mem_write_mach w task addr buf =
      let (w1, written) = vm_write w task addr buf in
      if written then (w1, true) else elim (page_size w1) [
        | none ↦ (w1, false)
        | some size ↦
            let page = bit_and addr (complement64 (size - 1)) in
            let (w2, opened) = vm_protect w1 task page size Protection.read_write_copy in
            if opened
            then (let (w3, rewritten) = vm_write w2 task addr buf in
                ((vm_protect w3 task page size Protection.read_execute).0, rewritten))
            else (w2, false)
      ]

  unfoldable pub mem_read : World → ℕ → ℕ → ℕ → Option (List ℕ)
  mem_read w pid addr len = elim (task_for_pid w pid) [
    | none ↦ mem_read_ptrace w pid addr len
    | some task ↦ elim (vm_read w task addr len) [
      | none ↦ mem_read_ptrace w pid addr len
      | some bytes ↦ if length bytes == len then some bytes else mem_read_ptrace w pid addr len
    ]
  ]

  unfoldable pub mem_write : World → ℕ → ℕ → List ℕ → World × Bool
  mem_write w pid addr buf = elim (task_for_pid w pid) [
    | none ↦ mem_write_ptrace w pid addr buf
    | some task ↦
        let (w', done) = mem_write_mach w task addr buf in
        if done then (w', true) else mem_write_ptrace w' pid addr buf
  ]

  unfoldable pub mem_read_u64 : World → ℕ → ℕ → Option ℕ
  mem_read_u64 w pid addr = Option.map value_of (mem_read w pid addr 8)

  unfoldable pub mem_write_u64 : World → ℕ → ℕ → ℕ → World × Bool
  mem_write_u64 w pid addr value = mem_write w pid addr (bytes_of 8 value)
