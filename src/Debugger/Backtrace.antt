-- ===== src/Debugger/Backtrace.antt =====
-- `cmd_backtrace` of src/debugger.c and the frame records it walks.
use macos_c_debugger_arm.Debugger.State.{Cdbg, refresh_regs}
use macos_c_debugger_arm.Kernel.{Kernel}
use macos_c_debugger_arm.Memory.{mem_read_u64}
use macos_c_debugger_arm.Prelude.{
  ℕ, zero, suc, ◌+◌, ◌≤◌, ◌<◌, ◌≡◌, inl, inr, ◌||◌, Option, none, some, List, [], ◌∷◌, map, arith,
  ◌==◌, ltb, leb, if◌then◌else◌, length, u64, Option-cases, Bool-cases,
}
use macos_c_debugger_arm.Regs.{regs_pc, regs_fp}

-- CDBG_MAX_BACKTRACE_FRAMES
abbrev pub max_backtrace_frames : ℕ
max_backtrace_frames = 64

module _ (k : Kernel) where
  -- The saved frame pointer and the return address.
  unfoldable pub frame_record_next : k.World → ℕ → ℕ → Option (ℕ × ℕ)
  unfolding mem_read_u64
  frame_record_next w pid fp = elim (mem_read_u64 k w pid fp) [
    | none ↦ none
    | some saved_fp ↦ elim (mem_read_u64 k w pid (u64 (fp + 8))) [
      | none ↦ none
      | some saved_pc ↦
          if saved_fp == 0 || (ltb saved_pc 0x1000 || leb saved_fp fp)
          then none
          else some (saved_fp, saved_pc)
    ]
  ]

  -- The rounds of the loop that are left.
  unfoldable pub frames_loop : ℕ → k.World → ℕ → ℕ → List (ℕ × ℕ)
  unfolding frame_record_next
  frames_loop zero w pid fp = []
  frames_loop (suc n) w pid fp = if fp == 0 then [] else elim (frame_record_next w pid fp) [
    | none ↦ []
    | some (next_fp, ret_addr) ↦ (next_fp, ret_addr) ∷ frames_loop n w pid next_fp
  ]

  -- The addresses that are printed, the innermost first.
  unfoldable pub backtrace : Cdbg → k.World → Option (List ℕ)
  unfolding frames_loop refresh_regs
  backtrace d w =
      let (d', read) = refresh_regs k d w in
      if read
      then some (regs_pc d'.regs ∷ map (λ (fp, pc). pc) (frames_loop 63 w d'.pid (regs_fp d'.regs)))
      else none

  module _ (w : k.World) (pid : ℕ) where
    -- Each frame is read from the record at the frame pointer before it, and lies above it.
    abbrev pub Climbs : ℕ → List (ℕ × ℕ) → Type 0
    Climbs fp [] = Unit
    Climbs fp ((next, ret) ∷ frames) =
        (mem_read_u64 k w pid fp ≡ some next)
        × (mem_read_u64 k w pid (u64 (fp + 8)) ≡ some ret)
        × (fp < next)
        × (0x1000 ≤ ret)
        × Climbs next frames

    frame_record_next-some :
        (fp next ret : ℕ)
        → frame_record_next w pid fp ≡ some (next, ret)
        → (mem_read_u64 k w pid fp ≡ some next)
          × (mem_read_u64 k w pid (u64 (fp + 8)) ≡ some ret)
          × (fp < next)
          × (0x1000 ≤ ret)
    unfolding frame_record_next
    frame_record_next-some fp next ret h = ground arith

    -- The walk of a backtrace gives at most as many frames as it has rounds, each is read from the frame
    -- record at the frame pointer before it, lies above it and has a return address of 0x1000 or more.
    pub frames_loop-Climbs :
        (n fp : ℕ) → Climbs fp (frames_loop n w pid fp) × (length (frames_loop n w pid fp) ≤ n)
    unfolding frames_loop
    frames_loop-Climbs zero fp = (tt, omega arith)
    frames_loop-Climbs (suc n) fp = elim (Bool-cases (fp == 0)) [
      | inl none_left ↦ rw (none_left, frames_loop) (tt, omega arith)
      | inr more ↦ elim (Option-cases (frame_record_next w pid fp)) [
        | inl e ↦ rw (more, e, frames_loop) (tt, omega arith)
        | inr ((next, ret), e) ↦
            let read = frame_record_next-some fp next ret e in
            let rest = frames_loop-Climbs n next in
            rw (more, e, frames_loop)
              ((read.0, read.1, read.2, read.3, rest.0), omega (arith, rest.1))
      ]
    ]
