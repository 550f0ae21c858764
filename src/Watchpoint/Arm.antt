-- ===== src/Watchpoint/Arm.antt =====
-- `cdbg_watch_arm`, `cdbg_watch_disarm` and `cdbg_watch_addr_hit` of src/watchpoint.c.
use macos_c_debugger_arm.Kernel.{Kernel, DebugState}
use macos_c_debugger_arm.Memory.{complement64}
use macos_c_debugger_arm.Prelude.Bits.{bit_and_mask, bit_and_high}
use macos_c_debugger_arm.Prelude.{
  ℕ, ◌+◌, ◌-◌, ◌*◌, ◌/◌, ◌%◌, ◌^◌, ◌≤◌, ◌<◌, ◌≡◌, ◌≢◌, ap, ◌∙◌, ◌↔◌, inl, inr, true, false, some,
  arith, get_or, length, get_or-set_self, get_or-set_ne, bit_and, Option-cases, Bool-cases,
}
use macos_c_debugger_arm.Regs.{regs_get_debug_state, regs_set_debug_state}
use macos_c_debugger_arm.Watchpoint.{
  WatchKind, Watchpoint, control_word, program_slot, clear_slot, request_fits, watch_arm,
  watch_addr_hit,
}
use macos_c_debugger_arm.Watchpoint.Mask.{Selects, low_bits, request_fits-lt, program_slot-Selects}

-- `w & ~1`.
clear_lowest : (w : ℕ) → w < 2 ^ 64 → bit_and w (complement64 1) ≡ w / 2 * 2
clear_lowest w h =
    bit_and_high 1 w (2 ^ 63 - 1) ∙ ap (λ t. t * 2) (bit_and_mask 63 (w / 2)) ∙ omega arith

-- For a slot within the control registers and a control word below 2^64, a cleared slot selects no byte,
-- and every other slot keeps both its registers.
clear_slot_lem :
    (state : DebugState) (slot other b : ℕ)
    → slot < length state.wcr
    → get_or state.wcr slot 0 < 2 ^ 64
    → (¬ Selects
        (get_or (clear_slot state slot).wvr slot 0)
        (get_or (clear_slot state slot).wcr slot 0)
        b)
      × (other ≢ slot
          → (get_or (clear_slot state slot).wcr other 0 ≡ get_or state.wcr other 0)
            × (get_or (clear_slot state slot).wvr other 0 ≡ get_or state.wvr other 0))
unfolding clear_slot
clear_slot_lem state slot other b within word =
    let old = get_or state.wcr slot 0 in
    let cleared : ℕ = bit_and old (complement64 1) in
    let stored = get_or-set_self state.wcr slot cleared 0 within ∙ clear_lowest old word in
    (
      λ s. let on = s.enabled in omega (arith, stored),
      λ ne. (get_or-set_ne state.wcr slot other cleared 0 (λ e. ne (ground arith)), ground arith),
    )

-- For an enabled watchpoint that passes the checks, does not wrap around and has a slot within both
-- register arrays, the test of a fault address holds exactly for the bytes that the programmed slot
-- selects.
pub watch_addr_hit-Selects :
    (wp : Watchpoint) (state : DebugState) (fault : ℕ)
    → wp.enabled ≡ true
    → wp.addr + wp.size < 2 ^ 64
    → wp.slot < length state.wvr
    → wp.slot < length state.wcr
    → request_fits wp.slot wp.addr wp.size ≡ true
    → (watch_addr_hit wp fault ≡ true)
      ↔ Selects
          (get_or (program_slot state wp.slot wp.addr wp.size wp.kind).wvr wp.slot 0)
          (get_or (program_slot state wp.slot wp.addr wp.size wp.kind).wcr wp.slot 0)
          fault
unfolding watch_addr_hit
watch_addr_hit-Selects wp state fault on small v c fits =
    let hardware =
      program_slot-Selects state wp.slot wp.addr wp.size wp.kind fault (omega arith) v c fits in
    (λ h. hardware.1 (ground arith, ground arith), λ s. let r = hardware.0 s in ground arith)

-- `watch_arm` by its steps.
module _ (k : Kernel) (w : k.World) (pid tid slot addr size : ℕ) (kind : WatchKind) where
  -- A request with a slot above 3, a size of 0, or a range over the edge of its granule of eight bytes is
  -- refused, and the system is not touched.
  watch_arm_refused :
      ¬ ((slot < 4) × (0 < size) × (addr % 8 + size ≤ 8))
      → watch_arm k w pid tid slot addr size kind ≡ (w, false)
  unfolding watch_arm
  watch_arm_refused bad = elim (Bool-cases (request_fits slot addr size)) [
    | inl e ↦ absurd (bad (request_fits-lt slot addr size e))
    | inr e ↦ rw (watch_arm, e)
  ]

  -- If arming a watchpoint succeeds, then the request has passed the checks, and the debug registers read
  -- back from the thread have the control word for the request in the slot.
  watch_arm-verified :
      (watch_arm k w pid tid slot addr size kind).1 ≡ true
      → (request_fits slot addr size ≡ true)
        × (verify : DebugState) × (regs_get_debug_state k
              (watch_arm k w pid tid slot addr size kind).0
              pid
              tid
            ≡ some verify)
        × (get_or verify.wcr slot 0 ≡ control_word size (addr % 8) kind)
  unfolding watch_arm
  watch_arm-verified done = elim (Bool-cases (request_fits slot addr size)) [
    | inr e ↦ ground arith
    | inl e ↦ elim (Option-cases (regs_get_debug_state k w pid tid)) [
      | inl f ↦ ground arith
      | inr (state, f) ↦
          let after = regs_set_debug_state k w pid tid (program_slot state slot addr size kind) in
          elim (Bool-cases after.1) [
            | inr g ↦ ground arith
            | inl g ↦ elim (Option-cases (regs_get_debug_state k after.0 pid tid)) [
              | inl h ↦ ground arith
              | inr (verify, h) ↦
                  let same = rw (watch_arm, e, f, g, h) at done in
                  (e, verify, rw (watch_arm, e, f, g, h) h, ground (arith, low_bits addr))
            ]
          ]
    ]
  ]
