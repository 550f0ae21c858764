-- ===== src/Debugger/Reenable.antt =====
-- `reenable_breakpoints_after_step` of src/debugger.c: which breakpoints are in force after a stop.
use macos_c_debugger_arm.Breakpoint.{Breakpoint, bp_enable}
use macos_c_debugger_arm.Debugger.Control.{disabled_at_pc, is_due, reenable_loop}
use macos_c_debugger_arm.Kernel.{Kernel}
use macos_c_debugger_arm.Prelude.{
  ℕ, zero, suc, ◌≡◌, refl, inl, inr, true, false, List, [], ◌∷◌, map, take, All, arith, Bool-cases,
}

-- Every breakpoint is enabled, but for one at `pc`.
abbrev pub Settled : ℕ → List Breakpoint → Type 0
Settled pc = All (λ bp. is_due pc bp ≡ false)

abbrev pub AllEnabled : List Breakpoint → Type 0
AllEnabled = All (λ bp. bp.enabled ≡ true)

module _ (k : Kernel) where
  -- An enable at the breakpoint's own address keeps the address, and on success enables it.
  pub bp_enable_own :
      (bp : Breakpoint) (w : k.World) (pid : ℕ)
      → ((bp_enable k bp w pid bp.addr).0.addr ≡ bp.addr)
        × ((bp_enable k bp w pid bp.addr).2 ≡ true
            → (bp_enable k bp w pid bp.addr).0.enabled ≡ true)
  unfolding bp_enable
  bp_enable_own bp w pid = ground arith

  pub reenable_loop-Settled :
      (pid pc : ℕ) (w : k.World) (count : ℕ) (bps : List Breakpoint)
      → (reenable_loop k pid pc w count bps).2 ≡ true
      → Settled pc (take count (reenable_loop k pid pc w count bps).0)
  unfolding reenable_loop
  reenable_loop-Settled pid pc w zero bps done = tt
  reenable_loop-Settled pid pc w (suc count) [] done = tt
  reenable_loop-Settled pid pc w (suc count) (bp ∷ bps) done = elim (Bool-cases (is_due pc bp)) [
    | inl e ↦ elim (Bool-cases (bp_enable k bp w pid bp.addr).2) [
      | inl f ↦
          let later =
            reenable_loop-Settled pid pc (bp_enable k bp w pid bp.addr).1 count bps
              (rw (reenable_loop, e, f) at done) in
          rw (e, f) (ground (arith, (bp_enable_own bp w pid).1 f), later)
      | inr f ↦ ground arith
    ]
    | inr e ↦
        let later = reenable_loop-Settled pid pc w count bps (rw (reenable_loop, e) at done) in
        rw e (e, later)
  ]

  -- Putting the breakpoints back changes no address, whether or not the loop gets to its end.
  reenable_loop-addrs :
      (pid pc : ℕ) (w : k.World) (count : ℕ) (bps : List Breakpoint)
      → map (λ bp. bp.addr) (reenable_loop k pid pc w count bps).0 ≡ map (λ bp. bp.addr) bps
  unfolding reenable_loop
  reenable_loop-addrs pid pc w zero bps = refl
  reenable_loop-addrs pid pc w (suc count) [] = refl
  reenable_loop-addrs pid pc w (suc count) (bp ∷ bps) = ground (
    arith,
    (bp_enable_own bp w pid).0,
    reenable_loop-addrs pid pc w count bps,
    reenable_loop-addrs pid pc (bp_enable k bp w pid bp.addr).1 count bps,
  )

-- A settled table with no disabled breakpoint at `pc` has all of them enabled.
pub Settled-AllEnabled :
    (pc : ℕ) (bps : List Breakpoint)
    → Settled pc bps
    → disabled_at_pc pc bps ≡ false
    → AllEnabled bps
unfolding disabled_at_pc
Settled-AllEnabled pc [] s h = tt
Settled-AllEnabled pc (bp ∷ bps) s h = ground (arith, Settled-AllEnabled pc bps s.1)
