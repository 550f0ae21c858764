-- ===== src/Slide.antt =====
-- `cdbg_lineno_update_slide` of src/lineno.c and `cdbg_syms_update_slide` of src/syms.c, which walk the regions
-- of the task alike. The regions are a parameter: `mach_vm_region_recurse` from an address on, none where it
-- fails; there are none of them where `task_for_pid` fails.
pub mod Regions
mod Tests
use macos_c_debugger_arm.Lineno.{Lineno}
use macos_c_debugger_arm.Prelude.{
  ℕ, zero, suc, ◌+◌, ◌^◌, Bool, not, ◌&&◌, Option, none, some, ◌==◌, if◌then◌else◌, bit_and, u64,
  sub64,
}
use macos_c_debugger_arm.Syms.{Syms}

pub record Region : Type 0 where
  pub address : ℕ
  pub size : ℕ
  pub protection : ℕ

-- What a walk ends with; `unfinished` where its rounds were too few.
pub data Walk {ℓ} (A : Type ℓ) : Type ℓ where
  found : A → Walk A
  nowhere unfinished : Walk A

-- VM_PROT_EXECUTE is 4, VM_PROT_READ 1.
abbrev pub is_code : Region → Bool
is_code r = not (bit_and r.protection 4 == 0) && not (bit_and r.protection 1 == 0)

-- The loop from the address on: the address of the first region that can be read and executed.
unfoldable pub slide_loop : (ℕ → Option Region) → ℕ → ℕ → Walk ℕ
slide_loop region zero addr = Walk.unfinished
slide_loop region (suc fuel) addr = elim (region addr) [
  | none ↦ Walk.nowhere
  | some r ↦
      let rest = slide_loop region fuel (u64 (r.address + r.size)) in
      if is_code r then Walk.found r.address else rest
]

-- A region has a byte at least, so that there are at most 2^64.
abbrev pub max_regions : ℕ
max_regions = 2 ^ 64

-- The new slide of a table with the link base.
unfoldable pub find_slide : Option (ℕ → Option Region) → ℕ → Walk ℕ
find_slide none link_base = Walk.nowhere
find_slide (some region) link_base = elim (slide_loop region max_regions 0) [
  | found address ↦ Walk.found (sub64 address link_base)
  | nowhere ↦ Walk.nowhere
  | unfinished ↦ Walk.unfinished
]

unfoldable pub lineno_update_slide : Option (ℕ → Option Region) → ℕ → Lineno → Walk Lineno
unfolding find_slide
lineno_update_slide regions link_base ln = elim (find_slide regions link_base) [
  | found slide ↦ Walk.found (record ln { slide = slide })
  | nowhere ↦ Walk.nowhere
  | unfinished ↦ Walk.unfinished
]

unfoldable pub syms_update_slide : Option (ℕ → Option Region) → ℕ → Syms → Walk Syms
unfolding find_slide
syms_update_slide regions link_base syms = elim (find_slide regions link_base) [
  | found slide ↦ Walk.found (record syms { slide = slide })
  | nowhere ↦ Walk.nowhere
  | unfinished ↦ Walk.unfinished
]
