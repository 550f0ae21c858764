-- ===== src/Debugger/Stop/Report.antt =====
-- `report_stop` of src/debugger.c at a breakpoint.
use macos_c_debugger_arm.Breakpoint.{Breakpoint, no_breakpoint, bp_is_trap, bp_matches_pc}
use macos_c_debugger_arm.Debugger.Delete.Removal.{Fits}
use macos_c_debugger_arm.Debugger.State.{Cdbg, refresh_regs}
use macos_c_debugger_arm.Debugger.Stop.{find_match, select_hit_thread, report_seen, report_stop}
use macos_c_debugger_arm.Debugger.Stop.Hit.{Handled, handle_breakpoint_hit-Handled}
use macos_c_debugger_arm.Kernel.{Kernel}
use macos_c_debugger_arm.Prelude.{
  ℕ, suc, ◌+◌, ◌<◌, ◌≡◌, ap, sym, subst, ◌∙◌, inl, inr, Bool, true, some, List, [], ◌∷◌, arith,
  get_or, length, length-take, Bool-cases,
}
use macos_c_debugger_arm.Regs.{regs_pc}
use macos_c_debugger_arm.Table.{Table, live}
use macos_c_debugger_arm.Threads.{suspend_others}

-- The number found, from `p` on, is that of a breakpoint that is enabled at `pc`.
abbrev pub Matches : ℕ → List Breakpoint → ℕ → Type 0
Matches pc bps i =
    (i < length bps)
    × ((get_or bps i no_breakpoint).enabled ≡ true)
    × ((get_or bps i no_breakpoint).addr ≡ pc)

find_match-Matches :
    (pc p : ℕ) (bps : List Breakpoint)
    → bp_is_trap pc bps ≡ true
    → (i : ℕ) × (find_match pc p bps ≡ some (p + i)) × Matches pc bps i
unfolding find_match bp_is_trap bp_matches_pc
find_match-Matches pc p [] h = cc
find_match-Matches pc p (bp ∷ bps) h = elim (Bool-cases (bp_matches_pc pc bp)) [
  | inl e ↦ (0, ground arith, (omega arith, ground arith, ground arith))
  | inr e ↦
      let rest = find_match-Matches pc (p + 1) bps (rw e at h) in
      (suc rest.0, ground (arith, rest.1), (omega (arith, rest.2.0), rest.2.1, rest.2.2))
]

module _ (k : Kernel) where
  -- The debugger when the registers have been read, and the system with the other threads suspended.
  abbrev pub system_at_stop : Cdbg → k.World → k.World
  system_at_stop d w =
      let d1 = select_hit_thread k d w in (suspend_others k w d1.pid d1.current_tid).0

  abbrev pub stop_seen : Cdbg → k.World → Cdbg × Bool
  stop_seen d w = refresh_regs k (select_hit_thread k d w) (system_at_stop d w)

  stop_seen-breakpoints : (d : Cdbg) (w : k.World) → (stop_seen d w).0.breakpoints ≡ d.breakpoints
  unfolding select_hit_thread refresh_regs
  stop_seen-breakpoints d w = ground arith

  find_match-Handled :
      (rounds : ℕ) (d : Cdbg) (w : k.World) (index : ℕ)
      → Fits d.breakpoints
      → bp_is_trap (regs_pc d.regs) (live d.breakpoints) ≡ true
      → find_match (regs_pc d.regs) 0 (live d.breakpoints) ≡ some index
      → index < length (live d.breakpoints)
      → (report_seen k rounds d w).2 ≡ true
      → Handled k d (report_seen k rounds d w).0 index
  unfolding report_seen
  find_match-Handled rounds d w index fits trap found lt done =
      rw (report_seen, trap, found)
        (handle_breakpoint_hit-Handled k d w index
          (omega (arith, length-take d.breakpoints.count d.breakpoints.entries))
          (rw (report_seen, trap, found) at done))

  report_seen-Handled :
      (rounds : ℕ) (d : Cdbg) (w : k.World)
      → Fits d.breakpoints
      → bp_is_trap (regs_pc d.regs) (live d.breakpoints) ≡ true
      → (report_seen k rounds d w).2 ≡ true
      → (index : ℕ) × Matches (regs_pc d.regs) (live d.breakpoints) index
        × Handled k d (report_seen k rounds d w).0 index
  report_seen-Handled rounds d w fits trap done =
      let found = find_match-Matches (regs_pc d.regs) 0 (live d.breakpoints) trap in
      (
        found.0,
        found.2,
        find_match-Handled rounds d w found.0 fits trap (found.1 ∙ ap some (omega arith)) found.2.0
            done,
      )

  stop_seen-Handled :
      (rounds : ℕ) (d : Cdbg) (w : k.World)
      → Fits (stop_seen d w).0.breakpoints
      → bp_is_trap (regs_pc (stop_seen d w).0.regs) (live (stop_seen d w).0.breakpoints) ≡ true
      → (report_stop k rounds d w).2 ≡ true
      → (index : ℕ) × Matches
          (regs_pc (stop_seen d w).0.regs)
          (live (stop_seen d w).0.breakpoints)
          index
        × Handled k (stop_seen d w).0 (report_stop k rounds d w).0 index
  unfolding report_stop
  stop_seen-Handled rounds d w fits trap done = elim (Bool-cases (stop_seen d w).1) [
    | inr e ↦ cc (rw (report_stop, e) at done)
    | inl e ↦
        rw (report_stop, e)
          (report_seen-Handled rounds (stop_seen d w).0 (system_at_stop d w) fits trap
            (rw (report_stop, e) at done))
  ]

  -- If the entries in use are within the array and the thread that is selected for the stop stands at an
  -- enabled breakpoint, a report that returns 0 has found the number of such a breakpoint, which is then
  -- disabled with its address as it was, the program counter is at that address unless it is 0, and every
  -- other entry is as it was.
  pub report_stop-Handled :
      (rounds : ℕ) (d : Cdbg) (w : k.World)
      → Fits d.breakpoints
      → bp_is_trap (regs_pc (stop_seen d w).0.regs) (live d.breakpoints) ≡ true
      → (report_stop k rounds d w).2 ≡ true
      → (index : ℕ) × Matches (regs_pc (stop_seen d w).0.regs) (live d.breakpoints) index
        × Handled k (stop_seen d w).0 (report_stop k rounds d w).0 index
  report_stop-Handled rounds d w fits trap done =
      let same = stop_seen-breakpoints d w in
      let pc = regs_pc (stop_seen d w).0.regs in
      let handled =
        stop_seen-Handled rounds d w (subst Fits (sym same) fits)
          (subst (λ (t : Table Breakpoint). bp_is_trap pc (live t) ≡ true) (sym same) trap) done in
      (
        handled.0,
        subst (λ (t : Table Breakpoint). Matches pc (live t) handled.0) same handled.1,
        handled.2,
      )
