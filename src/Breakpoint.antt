-- ===== src/Breakpoint.antt =====
-- src/breakpoint.c: software breakpoints, a BRK instruction put over the saved one.
pub mod Restore
pub mod Trap
mod Tests
use macos_c_debugger_arm.Kernel.{Kernel}
use macos_c_debugger_arm.Memory.{mem_read, mem_write}
use macos_c_debugger_arm.Prelude.{
  ℕ, Bool, true, false, none, some, List, [], ◌∷◌, ◌==◌, if◌then◌else◌, value_of, bytes_of,
}

-- CDBG_TRAP_INST
abbrev pub trap_inst : ℕ
trap_inst = 0xd4200000

pub record Breakpoint : Type 0 where
  pub addr : ℕ
  pub saved_inst : ℕ
  pub enabled : Bool

-- What `memset` to zero and `= {0}` give.
abbrev pub no_breakpoint : Breakpoint
no_breakpoint = record { addr = 0; saved_inst = 0; enabled = false }

unfoldable pub bp_matches_pc : ℕ → Breakpoint → Bool
bp_matches_pc pc bp = if bp.enabled then bp.addr == pc else false

-- The loop over the first `count` breakpoints, which are handed in as a list.
unfoldable pub bp_is_trap : ℕ → List Breakpoint → Bool
bp_is_trap pc [] = false
bp_is_trap pc (bp ∷ bps) = if bp_matches_pc pc bp then true else bp_is_trap pc bps

module _ (k : Kernel) where
  -- The breakpoint after the call, the system after it, and whether 0 was returned.
  unfoldable pub bp_enable : Breakpoint → k.World → ℕ → ℕ → Breakpoint × k.World × Bool
  bp_enable bp w pid addr = elim (mem_read k w pid addr 4) [
    | none ↦ (bp, w, false)
    | some inst ↦
        let armed : Breakpoint = record {
          addr = addr;
          saved_inst = value_of inst;
          enabled = true;
        } in
        let (w', done) = mem_write k w pid addr (bytes_of 4 trap_inst) in
        if done then (armed, w', true) else (record armed { enabled = false }, w', false)
  ]

  unfoldable pub bp_disable : Breakpoint → k.World → ℕ → Breakpoint × k.World × Bool
  bp_disable bp w pid =
      if bp.enabled
      then (let (w', done) = mem_write k w pid bp.addr (bytes_of 4 bp.saved_inst) in
          if done then (record bp { enabled = false }, w', true) else (bp, w', false))
      else (bp, w, true)
