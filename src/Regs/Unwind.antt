-- ===== src/Regs/Unwind.antt =====
-- `cdbg_regs_frame_up` and `unwind_from_stack_top` of src/regs.c: the step to the caller's frame.
use macos_c_debugger_arm.Kernel.{Kernel}
use macos_c_debugger_arm.Memory.{mem_read_u64}
use macos_c_debugger_arm.Prelude.{
  ℕ, ◌+◌, ◌≤◌, ◌<◌, ◌≡◌, ◌≢◌, ◌⊎◌, inl, inr, some, arith, u64, Option-cases,
}
use macos_c_debugger_arm.Regs.{
  Regs, regs_fp, regs_pc, ret_addr_valid, caller_fp, frame_record, unwind_from_stack_top,
  regs_frame_up,
}

module _ (k : Kernel) (w : k.World) (pid : ℕ) where
  -- How a step to the caller may come about: from the frame record, the saved frame pointer and return
  -- address of which are read at the frame pointer, or from the link register.
  pub record FromRecord (r r' : Regs) : Type 0 where
    pub has_frame : regs_fp r ≢ 0
    pub saved_fp : mem_read_u64 k w pid (regs_fp r) ≡ some (regs_fp r')
    pub return_address : mem_read_u64 k w pid (u64 (regs_fp r + 8)) ≡ some (regs_pc r')
    pub grows : regs_fp r < regs_fp r'
    pub stack : r'.native.sp ≡ u64 (regs_fp r + 16)

  pub record FromLink (r r' : Regs) : Type 0 where
    pub return_address : regs_pc r' ≡ r.native.lr
    pub no_shrink : regs_fp r ≤ regs_fp r'
    pub stack : r'.native.sp ≡ u64 (r.native.sp + 16)

  frame_record-some :
      (fp saved ret : ℕ)
      → frame_record k w pid fp ≡ some (saved, ret)
      → (fp ≢ 0)
        × (mem_read_u64 k w pid fp ≡ some saved)
        × (mem_read_u64 k w pid (u64 (fp + 8)) ≡ some ret)
        × (fp < saved)
        × (0x1000 ≤ ret)
  unfolding frame_record ret_addr_valid
  frame_record-some fp saved ret h = ground arith

  caller_fp-le : (fp : ℕ) → fp ≤ caller_fp k w pid fp
  unfolding caller_fp
  caller_fp-le fp = ground arith

  -- A step to the caller that succeeds ends at an address not below 0x1000, and has come about either from
  -- the frame record at a frame pointer that is not 0, with a larger frame pointer, or from the link
  -- register, with a frame pointer that is not smaller.
  regs_frame_up_lem :
      (r r' : Regs)
      → regs_frame_up k w pid r ≡ some r'
      → (0x1000 ≤ regs_pc r') × (FromRecord r r' ⊎ FromLink r r')
  unfolding regs_frame_up unwind_from_stack_top ret_addr_valid
  regs_frame_up_lem r r' h = elim (Option-cases (frame_record k w pid (regs_fp r))) [
    | inr (found, e) ↦
        let parts = frame_record-some (regs_fp r) found.0 found.1 e in
        let taken = rw (e, regs_frame_up) at h in
        let pc : regs_pc r' ≡ found.1 = ground arith in
        let fp : regs_fp r' ≡ found.0 = ground arith in
        let sp : r'.native.sp ≡ u64 (regs_fp r + 16) = ground arith in
        (
          omega arith,
          inl (record {
            has_frame = parts.0;
            saved_fp = rw fp parts.1;
            return_address = rw pc parts.2;
            grows = omega arith;
            stack = sp;
          }),
        )
    | inl e ↦
        let taken = rw (e, regs_frame_up, unwind_from_stack_top) at h in
        let fp : regs_fp r' ≡ caller_fp k w pid (regs_fp r) = ground arith in
        let pc : regs_pc r' ≡ r.native.lr = ground arith in
        let sp : r'.native.sp ≡ u64 (r.native.sp + 16) = ground arith in
        (
          ground arith,
          inr (record {
            return_address = pc;
            no_shrink = omega (arith, caller_fp-le (regs_fp r));
            stack = sp;
          }),
        )
  ]
