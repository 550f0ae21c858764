-- ===== src/Debugger/Slots.antt =====
-- `find_free_watch_slot` of src/debugger.c: the slots that enabled watchpoints hold.
use macos_c_debugger_arm.Debugger.Watch.{slot_used, free_slot_loop, find_free_watch_slot}
use macos_c_debugger_arm.Prelude.{
  ℕ, zero, suc, ◌+◌, ◌≤◌, ◌<◌, ◌≡◌, ◌≢◌, refl, inl, inr, true, false, none, some, List, [], ◌∷◌,
  arith, ◌==◌, All, Bool-cases,
}
use macos_c_debugger_arm.Watchpoint.{Watchpoint}

-- No enabled watchpoint has the slot.
abbrev pub IsFree : ℕ → List Watchpoint → Type 0
IsFree slot = All (λ wp. wp.enabled ≡ true → wp.slot ≢ slot)

slot_used-IsFree : (slot : ℕ) (wps : List Watchpoint) → slot_used slot wps ≡ false → IsFree slot wps
unfolding slot_used
slot_used-IsFree slot [] h = tt
slot_used-IsFree slot (wp ∷ wps) h =
    (λ on e. ground arith, slot_used-IsFree slot wps (ground arith))

IsFree-slot_used : (slot : ℕ) (wps : List Watchpoint) → IsFree slot wps → slot_used slot wps ≡ false
unfolding slot_used
IsFree-slot_used slot [] h = refl
IsFree-slot_used slot (wp ∷ wps) h = ground (arith, h.0, IsFree-slot_used slot wps h.1)

loop_some :
    (room slot s : ℕ) (wps : List Watchpoint)
    → free_slot_loop room slot wps ≡ some s
    → (s < slot + room) × IsFree s wps
unfolding free_slot_loop
loop_some zero slot s wps h = cc
loop_some (suc room) slot s wps h = elim (Bool-cases (slot_used slot wps)) [
  | inl e ↦ let later = loop_some room (slot + 1) s wps (ground arith) in (omega arith, later.1)
  | inr e ↦
      let same : slot ≡ s = ground arith in (omega arith, rw (← same) (slot_used-IsFree slot wps e))
]

loop_none :
    (room slot s : ℕ) (wps : List Watchpoint)
    → free_slot_loop room slot wps ≡ none
    → slot ≤ s
    → s < slot + room
    → ¬ IsFree s wps
unfolding free_slot_loop
loop_none zero slot s wps h lo hi free = absurd (omega arith)
loop_none (suc room) slot s wps h lo hi free = elim (Bool-cases (slot == s)) [
  | inl e ↦ ground (arith, IsFree-slot_used s wps free)
  | inr e ↦ loop_none room (slot + 1) s wps (ground arith) (ground arith) (omega arith) free
]

-- A slot that is found is one of the four and no enabled watchpoint has it; if none is found, each of the
-- four is taken.
pub find_free_watch_slot_lem :
    (wps : List Watchpoint)
    → ((s : ℕ) → find_free_watch_slot wps ≡ some s → (s < 4) × IsFree s wps)
      × (find_free_watch_slot wps ≡ none → (s : ℕ) → s < 4 → ¬ IsFree s wps)
unfolding find_free_watch_slot
find_free_watch_slot_lem wps =
    (λ s h. loop_some 4 0 s wps h, λ h s lt. loop_none 4 0 s wps h (omega arith) (omega arith))
