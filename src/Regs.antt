-- ===== src/Regs.antt =====
-- src/regs.c: the registers of a thread, and the step from a frame to its caller.
pub mod Unwind
pub mod Names
pub mod SetGet
mod Tests
use macos_c_debugger_arm.Kernel.{Kernel, ThreadState, NeonState, DebugState}
use macos_c_debugger_arm.Memory.{mem_read_u64}
use macos_c_debugger_arm.Prelude.{
  ℕ, ◌+◌, Bool, true, false, Option, none, some, ◌&&◌, not, ◌==◌, leb, ltb, if◌then◌else◌, u64,
}
use macos_c_debugger_arm.Threads.{resolve_port}

-- `cdbg_regs_t`
pub record Regs : Type 0 where
  pub native : ThreadState
  pub neon : NeonState

abbrev pub regs_pc : Regs → ℕ
regs_pc r = r.native.pc

abbrev pub regs_fp : Regs → ℕ
regs_fp r = r.native.fp

unfoldable pub regs_set_pc : Regs → ℕ → Regs
regs_set_pc r pc = record r { native = record (r.native) { pc = pc } }

unfoldable pub ret_addr_valid : ℕ → Bool
ret_addr_valid addr = leb 0x1000 addr

module _ (k : Kernel) where
  open k use {
    World, get_thread_state, set_thread_state, get_neon_state, get_debug_state, set_debug_state,
    get_exception_state,
  }

  -- The registers after the call: where only the NEON state cannot be read, the general ones are new.
  unfoldable pub regs_get : World → ℕ → ℕ → Regs → Regs × Bool
  regs_get w pid tid regs = elim (resolve_port k w pid tid) [
    | none ↦ (regs, false)
    | some thread ↦ elim (get_thread_state w thread) [
      | none ↦ (regs, false)
      | some native ↦ elim (get_neon_state w thread) [
        | none ↦ (record regs { native = native }, false)
        | some neon ↦ (record { native = native; neon = neon }, true)
      ]
    ]
  ]

  unfoldable pub regs_set : World → ℕ → ℕ → Regs → World × Bool
  regs_set w pid tid regs = elim (resolve_port k w pid tid) [
    | none ↦ (w, false)
    | some thread ↦ set_thread_state w thread regs.native
  ]

  unfoldable pub regs_get_debug_state : World → ℕ → ℕ → Option DebugState
  regs_get_debug_state w pid tid = elim (resolve_port k w pid tid) [
    | none ↦ none
    | some thread ↦ get_debug_state w thread
  ]

  unfoldable pub regs_set_debug_state : World → ℕ → ℕ → DebugState → World × Bool
  regs_set_debug_state w pid tid state = elim (resolve_port k w pid tid) [
    | none ↦ (w, false)
    | some thread ↦ set_debug_state w thread state
  ]

  -- FAR and ESR.
  unfoldable pub regs_get_exception_state : World → ℕ → ℕ → Option (ℕ × ℕ)
  regs_get_exception_state w pid tid = elim (resolve_port k w pid tid) [
    | none ↦ none
    | some thread ↦ get_exception_state w thread
  ]

  -- The frame pointer for the caller of a function that has made no frame record.
  unfoldable pub caller_fp : World → ℕ → ℕ → ℕ
  caller_fp w pid fp = if fp == 0 then fp else elim (mem_read_u64 k w pid fp) [
    | none ↦ fp
    | some saved_fp ↦ if ltb fp saved_fp then saved_fp else fp
  ]

  unfoldable pub unwind_from_stack_top : World → ℕ → Regs → ℕ → Option Regs
  unwind_from_stack_top w pid regs sp =
      let lr = regs.native.lr in
      if ret_addr_valid lr
      then some (record regs {
        native = record (regs.native) {
          pc = lr;
          fp = caller_fp w pid (regs_fp regs);
          sp = u64 (sp + 16);
        };
      })
      else none

  -- The frame record at `fp`, where it leads to a caller: the saved frame pointer and return address.
  unfoldable pub frame_record : World → ℕ → ℕ → Option (ℕ × ℕ)
  frame_record w pid fp = if fp == 0 then none else elim (mem_read_u64 k w pid fp) [
    | none ↦ none
    | some saved_fp ↦ elim (mem_read_u64 k w pid (u64 (fp + 8))) [
      | none ↦ none
      | some ret_addr ↦
          if ltb fp saved_fp && ret_addr_valid ret_addr then some (saved_fp, ret_addr) else none
    ]
  ]

  unfoldable pub regs_frame_up : World → ℕ → Regs → Option Regs
  regs_frame_up w pid regs =
      let fp = regs_fp regs in
      elim (frame_record w pid fp) [
        | some (saved_fp, ret_addr) ↦ some (record regs {
          native = record (regs.native) { pc = ret_addr; fp = saved_fp; sp = u64 (fp + 16) };
        })
        | none ↦ unwind_from_stack_top w pid regs regs.native.sp
      ]
