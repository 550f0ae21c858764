-- ===== src/Debugger/Stop/Hit.antt =====
-- `find_breakpoint_hit_thread`, `handle_breakpoint_hit` and `report_stop` of src/debugger.c: which thread and
-- which breakpoint have stopped the process, and how the breakpoint is left.
use macos_c_debugger_arm.Breakpoint.{Breakpoint, no_breakpoint, bp_disable, bp_is_trap}
use macos_c_debugger_arm.Debugger.State.{Cdbg, refresh_regs}
use macos_c_debugger_arm.Debugger.Stop.{
  first_trapped, find_breakpoint_hit_thread, handle_breakpoint_hit,
}
use macos_c_debugger_arm.Kernel.{Kernel}
use macos_c_debugger_arm.Prelude.{
  ℕ, ◌<◌, ◌≡◌, ◌≢◌, refl, ap, sym, inl, inr, true, false, some, List, [], ◌∷◌, arith, ◌==◌, get_or,
  length, get_or-set_self, get_or-set_ne, Bool-cases,
}
use macos_c_debugger_arm.Regs.{regs_pc, regs_set_pc}
use macos_c_debugger_arm.Table.{live}
use macos_c_debugger_arm.Threads.{ThreadEntry, threads_list, max_threads}

-- A listed thread with the id stands at a trap.
pub data StandsAtTrap (bps : List Breakpoint) (tid : ℕ) : List ThreadEntry → Type 0 where
  here :
      {t : ThreadEntry} {ts : List ThreadEntry}
      → t.tid ≡ tid
      → bp_is_trap t.pc bps ≡ true
      → StandsAtTrap bps tid (t ∷ ts)
  later :
      {t : ThreadEntry} {ts : List ThreadEntry}
      → bp_is_trap t.pc bps ≡ false
      → StandsAtTrap bps tid ts
      → StandsAtTrap bps tid (t ∷ ts)

first_trapped-StandsAtTrap :
    (bps : List Breakpoint) (ts : List ThreadEntry)
    → first_trapped bps ts ≢ 0
    → StandsAtTrap bps (first_trapped bps ts) ts
unfolding first_trapped
first_trapped-StandsAtTrap bps [] ne = absurd (ne refl)
first_trapped-StandsAtTrap bps (t ∷ ts) ne = elim (Bool-cases (bp_is_trap t.pc bps)) [
  | inl e ↦ rw e (here refl e)
  | inr e ↦ rw e (later e (first_trapped-StandsAtTrap bps ts (rw e at ne)))
]

module _ (k : Kernel) where
  -- If the threads can be listed, a thread id other than 0 that is found is that of the first listed
  -- thread that stands at an enabled breakpoint.
  find_breakpoint_hit_thread-StandsAtTrap :
      (d : Cdbg) (w : k.World) (ts : List ThreadEntry)
      → threads_list k w d.pid max_threads ≡ some ts
      → find_breakpoint_hit_thread k d w ≢ 0
      → StandsAtTrap (live d.breakpoints) (find_breakpoint_hit_thread k d w) ts
  unfolding find_breakpoint_hit_thread
  find_breakpoint_hit_thread-StandsAtTrap d w ts e ne =
      elim (Bool-cases (d.breakpoints.count == 0)) [
        | inl none_set ↦ absurd (ne (rw (find_breakpoint_hit_thread, none_set) refl))
        | inr some_set ↦
            rw (find_breakpoint_hit_thread, some_set, e)
              (first_trapped-StandsAtTrap (live d.breakpoints) ts
                (rw (find_breakpoint_hit_thread, some_set, e) at ne))
      ]

  bp_disable_own :
      (bp : Breakpoint) (w : k.World) (pid : ℕ)
      → ((bp_disable k bp w pid).0.addr ≡ bp.addr)
        × ((bp_disable k bp w pid).2 ≡ true → (bp_disable k bp w pid).0.enabled ≡ false)
  unfolding bp_disable
  bp_disable_own bp w pid = ground arith

  -- How the table and the registers stand after a hit of the breakpoint at the index.
  pub record Handled (d d' : Cdbg) (index : ℕ) : Type 0 where
    pub off : (get_or d'.breakpoints.entries index no_breakpoint).enabled ≡ false
    pub address :
        (get_or d'.breakpoints.entries index no_breakpoint).addr
        ≡ (get_or d.breakpoints.entries index no_breakpoint).addr
    pub rewound :
        (get_or d.breakpoints.entries index no_breakpoint).addr ≢ 0
        → regs_pc d'.regs ≡ (get_or d.breakpoints.entries index no_breakpoint).addr
    pub others :
        (j : ℕ)
        → j ≢ index
        → get_or d'.breakpoints.entries j no_breakpoint
          ≡ get_or d.breakpoints.entries j no_breakpoint

  -- For an index within the array, a breakpoint hit that is handled with success leaves the breakpoint
  -- disabled with its address as it was, the program counter at that address unless it is 0, and every
  -- other entry as it was.
  pub handle_breakpoint_hit-Handled :
      (d : Cdbg) (w : k.World) (index : ℕ)
      → index < length d.breakpoints.entries
      → (handle_breakpoint_hit k d w index).2 ≡ true
      → Handled d (handle_breakpoint_hit k d w index).0 index
  unfolding handle_breakpoint_hit refresh_regs regs_set_pc
  handle_breakpoint_hit-Handled d w index lt done =
      let entries = d.breakpoints.entries in
      let old = get_or entries index no_breakpoint in
      let off = bp_disable k old w d.pid in
      let own = bp_disable_own old w d.pid in
      let stored = get_or-set_self entries index off.0 no_breakpoint lt in
      record {
        off = ground (arith, own.1, ap (λ (bp : Breakpoint). bp.enabled) stored);
        address = ground (arith, own.0, ap (λ (bp : Breakpoint). bp.addr) stored);
        rewound = λ ne. ground (arith, own.0);
        others = λ j ne.
            ground (arith, get_or-set_ne entries index j off.0 no_breakpoint (λ e. ne (sym e)));
      }
