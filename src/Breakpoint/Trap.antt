-- ===== src/Breakpoint/Trap.antt =====
-- `cdbg_bp_matches_pc` and `cdbg_bp_is_trap` of src/breakpoint.c against their meaning.
use macos_c_debugger_arm.Breakpoint.{Breakpoint, no_breakpoint, bp_matches_pc, bp_is_trap}
use macos_c_debugger_arm.Prelude.{
  ℕ, zero, suc, ◌<◌, ◌≡◌, ◌↔◌, inl, inr, true, List, [], ◌∷◌, arith, length, get_or, Bool-cases,
}

-- The breakpoint is in force at `pc`.
abbrev pub ArmedAt : ℕ → Breakpoint → Type 0
ArmedAt pc bp = (bp.enabled ≡ true) × (bp.addr ≡ pc)

abbrev pub SomeArmedAt : ℕ → List Breakpoint → Type 0
SomeArmedAt pc bps = (i : ℕ) × (i < length bps) × ArmedAt pc (get_or bps i no_breakpoint)

pub bp_matches_pc_iff : (pc : ℕ) (bp : Breakpoint) → (bp_matches_pc pc bp ≡ true) ↔ ArmedAt pc bp
unfolding bp_matches_pc
bp_matches_pc_iff pc bp = ground arith

is_trap-found : (pc : ℕ) (bps : List Breakpoint) → bp_is_trap pc bps ≡ true → SomeArmedAt pc bps
unfolding bp_is_trap
is_trap-found pc [] h = cc
is_trap-found pc (bp ∷ bps) h = elim (Bool-cases (bp_matches_pc pc bp)) [
  | inl e ↦ (0, omega arith, (bp_matches_pc_iff pc bp).0 e)
  | inr e ↦
      let later = is_trap-found pc bps (ground arith) in
      (suc later.0, omega (arith, later.1), later.2)
]

found-is_trap :
    (pc : ℕ) (bps : List Breakpoint) (i : ℕ)
    → i < length bps
    → ArmedAt pc (get_or bps i no_breakpoint)
    → bp_is_trap pc bps ≡ true
unfolding bp_is_trap
found-is_trap pc [] i h a = elim h [ ]
found-is_trap pc (bp ∷ bps) zero h a = let e = (bp_matches_pc_iff pc bp).1 a in ground arith
found-is_trap pc (bp ∷ bps) (suc i) h a = ground (arith, found-is_trap pc bps i (omega arith) a)

-- An address is a trap exactly if some enabled breakpoint has it.
bp_is_trap_iff : (pc : ℕ) (bps : List Breakpoint) → (bp_is_trap pc bps ≡ true) ↔ SomeArmedAt pc bps
bp_is_trap_iff pc bps =
    (is_trap-found pc bps, λ found. found-is_trap pc bps found.0 found.1 found.2)
