-- ===== src/Debugger/Stop/End.antt =====
-- `stop_debuggee` and `report_process_exit` of src/debugger.c: nothing is left of the process.
use macos_c_debugger_arm.Breakpoint.{Breakpoint}
use macos_c_debugger_arm.Debugger.State.{idle, Cdbg, is_idle, process_wait}
use macos_c_debugger_arm.Debugger.Stop.{map_first, retire, after_kill, stop_debuggee}
use macos_c_debugger_arm.Kernel.{Kernel, Waited}
use macos_c_debugger_arm.Prelude.{
  ℕ, zero, suc, ◌≡◌, ◌≢◌, refl, inl, inr, true, false, List, [], ◌∷◌, take, All, arith, ◌==◌,
  Bool-cases,
}
use macos_c_debugger_arm.Table.{live}
use macos_c_debugger_arm.Watchpoint.{Watchpoint}

-- No entry in use is on.
abbrev pub AllOff : Cdbg → Type 0
AllOff d =
    All (λ bp. bp.enabled ≡ false) (live d.breakpoints)
    × All (λ wp. wp.enabled ≡ false) (live d.watchpoints)

breakpoints_off :
    (n : ℕ) (bps : List Breakpoint)
    → All
        (λ bp. bp.enabled ≡ false)
        (take n (map_first (λ bp. record bp { enabled = false }) n bps))
unfolding map_first
breakpoints_off zero bps = tt
breakpoints_off (suc n) [] = tt
breakpoints_off (suc n) (bp ∷ bps) = (refl, breakpoints_off n bps)

watchpoints_off :
    (n : ℕ) (wps : List Watchpoint)
    → All
        (λ wp. wp.enabled ≡ false)
        (take n (map_first (λ wp. record wp { enabled = false }) n wps))
unfolding map_first
watchpoints_off zero wps = tt
watchpoints_off (suc n) [] = tt
watchpoints_off (suc n) (wp ∷ wps) = (refl, watchpoints_off n wps)

retire-AllOff : (d : Cdbg) → AllOff (retire d)
unfolding retire
retire-AllOff d = (
  breakpoints_off d.breakpoints.count d.breakpoints.entries,
  watchpoints_off d.watchpoints.count d.watchpoints.entries,
)

abbrev pub IsGone : Cdbg → Type 0
IsGone d = (d.pid ≡ 0) × (d.state ≡ idle) × AllOff d

module _ (k : Kernel) where
  after_kill-IsGone :
      (d : Cdbg) (w : k.World) (status : Waited)
      → (after_kill k d w status).2 ≡ true
      → IsGone (after_kill k d w status).0
  unfolding after_kill retire
  after_kill-IsGone d w Waited.interrupted done = cc
  after_kill-IsGone d w Waited.wait_error done = cc
  after_kill-IsGone d w Waited.stopped done =
      (refl, refl, retire-AllOff (record d { wait_status = Waited.stopped; state = idle }))
  after_kill-IsGone d w (Waited.exited code) done =
      (refl, refl, retire-AllOff (record d { wait_status = Waited.exited code; state = idle }))
  after_kill-IsGone d w (Waited.signaled sig) done =
      (refl, refl, retire-AllOff (record d { wait_status = Waited.signaled sig; state = idle }))

  idle-IsGone : (d : Cdbg) → is_idle d.state ≡ true → IsGone (retire d)
  unfolding retire
  idle-IsGone d h = (refl, ground arith, retire-AllOff d)

  -- With a process, a stop of the debuggee that returns 0 leaves no pid, the state idle, and every
  -- breakpoint and watchpoint in use disabled.
  pub stop_debuggee-IsGone :
      (rounds : ℕ) (d : Cdbg) (w : k.World)
      → d.pid ≢ 0
      → (stop_debuggee k rounds d w).2 ≡ true
      → IsGone (stop_debuggee k rounds d w).0
  unfolding stop_debuggee
  stop_debuggee-IsGone rounds d w ne done =
      let alive : (d.pid == 0) ≡ false = ground arith in
      let killed = k.kill (k.pt_detach w d.pid) d.pid in
      let waited = process_wait k rounds killed.0 d.pid in
      elim (Bool-cases (is_idle d.state)) [
        | inl e ↦ rw (stop_debuggee, alive, e) (idle-IsGone d e)
        | inr e ↦ elim (Bool-cases killed.1) [
          | inr f ↦ cc (rw (stop_debuggee, alive, e, f) at done)
          | inl f ↦
              rw (stop_debuggee, alive, e, f)
                (after_kill-IsGone d waited.0 waited.1 (rw (stop_debuggee, alive, e, f) at done))
        ]
      ]
