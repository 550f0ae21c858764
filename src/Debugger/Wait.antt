-- ===== src/Debugger/Wait.antt =====
-- `cdbg_process_wait` (src/process.c), and `cdbg_wait`, `cdbg_continue` of src/debugger.c: the states that
-- they leave.
use macos_c_debugger_arm.Breakpoint.{Breakpoint}
use macos_c_debugger_arm.Debugger.Control.{
  disabled_at_pc, reenable_breakpoints, after_wait, wait, step_over_disabled_breakpoint, let_run,
  after_step_over, continue_process,
}
use macos_c_debugger_arm.Debugger.Reenable.{Settled, reenable_loop-Settled}
use macos_c_debugger_arm.Debugger.State.{
  State, idle, running, Rc, ok, exited, failed, Cdbg, is_idle, is_stopped, refresh_regs,
  single_step, process_wait,
}
use macos_c_debugger_arm.Kernel.{Kernel, Waited, interrupted}
use macos_c_debugger_arm.Prelude.{
  ℕ, zero, suc, ◌<◌, ◌≡◌, ◌≢◌, refl, sym, subst, ap, ◌∙◌, if◌then◌else◌, ◌⊎◌, inl, inr, Bool, true,
  false, not, ◌||◌, List, take, arith, ◌==◌, Bool-cases,
}
use macos_c_debugger_arm.Regs.{regs_pc}
use macos_c_debugger_arm.Table.{live}

-- What a stop leaves: no breakpoint is off but at the program counter.
abbrev pub IsSettled : Cdbg → Type 0
IsSettled d = Settled (regs_pc d.regs) (live d.breakpoints)

Settled-empty : (pc n : ℕ) (bps : List Breakpoint) → (n == 0) ≡ true → Settled pc (take n bps)
Settled-empty pc zero bps h = tt
Settled-empty pc (suc n) bps h = ground arith

disabled_at_pc-used :
    (pc n : ℕ) (bps : List Breakpoint) → disabled_at_pc pc (take n bps) ≡ true → (n == 0) ≡ false
unfolding disabled_at_pc
disabled_at_pc-used pc zero bps h = cc
disabled_at_pc-used pc (suc n) bps h = ground arith

module _ (k : Kernel) where
  -- The system after `n` calls of `waitpid`.
  abbrev pub after_calls : ℕ → k.World → ℕ → k.World
  after_calls zero w pid = w
  after_calls (suc n) w pid = after_calls n (k.waitpid w pid).0 pid

  -- If the call of waitpid after n interrupted ones reports, more than n rounds are enough fuel: the loop
  -- ends with that report.
  process_wait_enough :
      (n rounds : ℕ) (w : k.World) (pid : ℕ)
      → n < rounds
      → ((i : ℕ) → i < n → (k.waitpid (after_calls i w pid) pid).1 ≡ interrupted)
      → (k.waitpid (after_calls n w pid) pid).1 ≢ interrupted
      → process_wait k rounds w pid ≡ k.waitpid (after_calls n w pid) pid
  unfolding process_wait
  process_wait_enough n zero w pid lt busy report = elim lt [ ]
  process_wait_enough zero (suc rounds) w pid lt busy report = ground arith
  process_wait_enough (suc n) (suc rounds) w pid lt busy report = ground (
    arith,
    busy 0 (omega arith),
    process_wait_enough n rounds (k.waitpid w pid).0 pid (omega arith)
        (λ i h. busy (suc i) (omega arith)) report,
  )

  -- After a stop the breakpoints have been put back, if the call succeeds.
  reenable-IsSettled :
      (d : Cdbg) (w : k.World)
      → d.state ≡ State.stopped
      → (reenable_breakpoints k d w).2 ≡ true
      → ((reenable_breakpoints k d w).0.state ≡ State.stopped)
        × IsSettled (reenable_breakpoints k d w).0
  unfolding reenable_breakpoints refresh_regs
  reenable-IsSettled d w st done = elim (Bool-cases (d.breakpoints.count == 0)) [
    | inl empty ↦
        rw (reenable_breakpoints, empty)
          (st, Settled-empty (regs_pc d.regs) d.breakpoints.count d.breakpoints.entries empty)
    | inr used ↦
        let test : (d.breakpoints.count == 0 || not (is_stopped d.state)) ≡ false = ground arith in
        let read = (refresh_regs k d w).1 in
        let pc = regs_pc (refresh_regs k d w).0.regs in
        elim (Bool-cases read) [
          | inl r ↦
              rw (reenable_breakpoints, test, r)
                (
                  st,
                  reenable_loop-Settled k d.pid pc w d.breakpoints.count d.breakpoints.entries
                      (rw (reenable_breakpoints, test, r) at done),
                )
          | inr r ↦ cc (rw (reenable_breakpoints, test, r) at done)
        ]
  ]

  -- What a wait has established, by its result. An exit leaves the breakpoints alone; an error leaves the
  -- debugger as it was, or with a stopped process.
  abbrev pub Waits : Cdbg → Cdbg → Rc → Type 0
  Waits d d' ok = (d'.state ≡ State.stopped) × IsSettled d'
  Waits d d' exited = (d'.state ≡ idle) × (d'.breakpoints ≡ d.breakpoints)
  Waits d d' failed = (d' ≡ d) ⊎ (d'.state ≡ State.stopped)

  reenable-state : (d : Cdbg) (w : k.World) → (reenable_breakpoints k d w).0.state ≡ d.state
  unfolding reenable_breakpoints refresh_regs
  reenable-state d w = ground arith

  stopped-Waits :
      (d d' : Cdbg) (w' : k.World) (r : Cdbg × k.World × Bool)
      → d'.state ≡ State.stopped
      → r ≡ reenable_breakpoints k d' w'
      → Waits d r.0 (if r.2 then ok else failed)
  stopped-Waits d d' w' (d2, w2, true) st e =
      let done = ap (λ (t : Cdbg × k.World × Bool). t.2) e in
      let after = reenable-IsSettled d' w' st (sym done) in
      subst (λ (t : Cdbg × k.World × Bool). (t.0.state ≡ State.stopped) × IsSettled t.0) (sym e)
        after
  stopped-Waits d d' w' (d2, w2, false) st e =
      inr (ap (λ (t : Cdbg × k.World × Bool). t.0.state) e ∙ reenable-state d' w' ∙ st)

  after_wait-Waits :
      (d : Cdbg) (w : k.World) (r : Waited) → Waits d (after_wait k d w r).0 (after_wait k d w r).2
  unfolding after_wait
  after_wait-Waits d w Waited.interrupted = inl refl
  after_wait-Waits d w Waited.wait_error = inl refl
  after_wait-Waits d w (Waited.exited code) = (refl, refl)
  after_wait-Waits d w (Waited.signaled sig) = (refl, refl)
  after_wait-Waits d w Waited.stopped =
      let d1 : Cdbg = record d { wait_status = Waited.stopped; state = State.stopped } in
      stopped-Waits d d1 w (reenable_breakpoints k d1 w) refl refl

  -- A wait that returns 0 leaves the process stopped with every breakpoint enabled but for one at the
  -- program counter, 1 leaves the debugger idle with its breakpoints as they were, and -1 leaves the
  -- debugger as it was or with a stopped process.
  pub wait-Waits :
      (rounds : ℕ) (d : Cdbg) (w : k.World) → Waits d (wait k rounds d w).0 (wait k rounds d w).2
  unfolding wait
  wait-Waits rounds d w =
      after_wait-Waits d (process_wait k rounds w d.pid).0 (process_wait k rounds w d.pid).1

  -- Letting the process run changes the state alone.
  let_run_ok :
      (d : Cdbg) (w : k.World)
      → (let_run k d w).2 ≡ ok
      → (let_run k d w).0 ≡ record d { state = running }
  unfolding let_run
  let_run_ok d w h = ground arith

  single_step-stopped :
      (d : Cdbg) (w : k.World)
      → (single_step k d w).2 ≡ true
      → (single_step k d w).0 ≡ record d { state = running }
  unfolding single_step
  single_step-stopped d w h = ground arith

  wait_ok :
      (rounds : ℕ) (d : Cdbg) (w : k.World)
      → (wait k rounds d w).2 ≡ ok
      → ((wait k rounds d w).0.state ≡ State.stopped) × IsSettled (wait k rounds d w).0
  wait_ok rounds d w h = subst (Waits d (wait k rounds d w).0) h (wait-Waits rounds d w)

  -- For a stopped process with a disabled breakpoint at the program counter, a step over it that returns 0
  -- leaves the process stopped and every breakpoint enabled but for one at the new program counter.
  step_over-IsSettled :
      (rounds : ℕ) (d : Cdbg) (w : k.World)
      → d.state ≡ State.stopped
      → disabled_at_pc (regs_pc (refresh_regs k d w).0.regs) (live d.breakpoints) ≡ true
      → (step_over_disabled_breakpoint k rounds d w).2 ≡ ok
      → ((step_over_disabled_breakpoint k rounds d w).0.state ≡ State.stopped)
        × IsSettled (step_over_disabled_breakpoint k rounds d w).0
  unfolding step_over_disabled_breakpoint refresh_regs
  step_over-IsSettled rounds d w st off h =
      let used =
        disabled_at_pc-used (regs_pc (refresh_regs k d w).0.regs) d.breakpoints.count
          d.breakpoints.entries off in
      let test : (not (is_stopped d.state) || d.breakpoints.count == 0) ≡ false = ground arith in
      let d1 = (refresh_regs k d w).0 in
      let step = single_step k d1 w in
      elim (Bool-cases (refresh_regs k d w).1) [
        | inr r ↦ cc (rw (step_over_disabled_breakpoint, test, r) at h)
        | inl r ↦ elim (Bool-cases step.2) [
          | inr s ↦ cc (rw (step_over_disabled_breakpoint, test, r, off, s) at h)
          | inl s ↦
              rw (step_over_disabled_breakpoint, test, r, off, s)
                (wait_ok rounds step.0 step.1
                  (rw (step_over_disabled_breakpoint, test, r, off, s) at h))
        ]
      ]

  step_over-ok-stopped :
      (rounds : ℕ) (d : Cdbg) (w : k.World)
      → d.state ≡ State.stopped
      → (step_over_disabled_breakpoint k rounds d w).2 ≡ ok
      → (step_over_disabled_breakpoint k rounds d w).0.state ≡ State.stopped
  unfolding step_over_disabled_breakpoint refresh_regs
  step_over-ok-stopped rounds d w st h =
      let d1 = (refresh_regs k d w).0 in
      let step = single_step k d1 w in ground (arith, wait_ok rounds step.0 step.1)

  after_step_over_ok :
      (d : Cdbg) (w : k.World) (rc : Rc)
      → (rc ≡ ok → d.state ≡ State.stopped)
      → (after_step_over k d w rc).2 ≡ ok
      → (rc ≡ ok) × ((after_step_over k d w rc).0 ≡ record d { state = running })
  unfolding after_step_over
  after_step_over_ok d w ok st h =
      let busy : is_idle d.state ≡ false = ground (arith, st refl) in
      (refl, rw busy (let_run_ok d w (rw busy at h)))
  after_step_over_ok d w exited st h = cc
  after_step_over_ok d w failed st h = cc

  -- For a stopped process, a continue that returns 0 leaves the state running, and if a disabled
  -- breakpoint stood at the program counter, then every breakpoint is enabled but for one at the program
  -- counter that the step over it has come to.
  pub continue_process_ok :
      (rounds : ℕ) (d : Cdbg) (w : k.World)
      → d.state ≡ State.stopped
      → (continue_process k rounds d w).2 ≡ ok
      → ((continue_process k rounds d w).0.state ≡ running)
        × (disabled_at_pc (regs_pc (refresh_regs k d w).0.regs) (live d.breakpoints) ≡ true
            → IsSettled (continue_process k rounds d w).0)
  unfolding continue_process
  continue_process_ok rounds d w st h =
      let over = step_over_disabled_breakpoint k rounds d w in
      let ran =
        after_step_over_ok over.0 over.1 over.2 (λ e. step_over-ok-stopped rounds d w st e) h in
      (
        ap (λ (t : Cdbg). t.state) ran.1,
        λ off. subst IsSettled (sym ran.1) (step_over-IsSettled rounds d w st off ran.0).1,
      )
