-- ===== src/Debugger/Watch.antt =====
-- Watchpoints on all threads: `find_watchpoint_hit` to `try_report_watchpoint_hit`, and
-- `find_free_watch_slot` of src/debugger.c.
use macos_c_debugger_arm.Debugger.Control.{wait}
use macos_c_debugger_arm.Debugger.State.{
  Rc, ok, exited, failed, Cdbg, is_idle, is_stopped, Result, single_step,
}
use macos_c_debugger_arm.Kernel.{Kernel}
use macos_c_debugger_arm.Prelude.{
  ℕ, zero, suc, ◌+◌, Bool, true, false, ◌&&◌, Option, none, some, List, [], ◌∷◌, ◌++◌, ◌==◌,
  if◌then◌else◌,
}
use macos_c_debugger_arm.Table.{live}
use macos_c_debugger_arm.Threads.{ThreadEntry, threads_list, max_threads}
use macos_c_debugger_arm.Watchpoint.{
  Watchpoint, watch_arm, watch_disarm, watch_addr_hit, max_watchpoints,
}

-- The index of the first watchpoint that is hit, counted from `i`.
unfoldable pub find_watchpoint_hit : ℕ → ℕ → List Watchpoint → Option ℕ
find_watchpoint_hit i fault_addr [] = none
find_watchpoint_hit i fault_addr (wp ∷ wps) =
    if watch_addr_hit wp fault_addr then some i else find_watchpoint_hit (i + 1) fault_addr wps

-- Whether some enabled watchpoint has the slot, which is `used[slot]`.
unfoldable pub slot_used : ℕ → List Watchpoint → Bool
slot_used slot [] = false
slot_used slot (wp ∷ wps) = if wp.enabled && wp.slot == slot then true else slot_used slot wps

-- The loop over the slots from `slot` on, `room` of them.
unfoldable pub free_slot_loop : (room slot : ℕ) → List Watchpoint → Option ℕ
unfolding slot_used
free_slot_loop zero slot wps = none
free_slot_loop (suc room) slot wps =
    let next = free_slot_loop room (slot + 1) wps in if slot_used slot wps then next else some slot

unfoldable pub find_free_watch_slot : List Watchpoint → Option ℕ
unfolding free_slot_loop
find_free_watch_slot wps = free_slot_loop max_watchpoints 0 wps

module _ (k : Kernel) where
  unfoldable pub disarm_loop : k.World → ℕ → ℕ → List ThreadEntry → k.World
  disarm_loop w pid slot [] = w
  disarm_loop w pid slot (t ∷ ts) = disarm_loop (watch_disarm k w pid t.tid slot).0 pid slot ts

  -- `armed` are the threads before: they are disarmed again if one cannot be armed.
  unfoldable pub arm_loop :
      k.World → ℕ → Watchpoint → List ThreadEntry → List ThreadEntry → k.World × Bool
  arm_loop w pid wp armed [] = (w, true)
  arm_loop w pid wp armed (t ∷ ts) =
      let (w', done) = watch_arm k w pid t.tid wp.slot wp.addr wp.size wp.kind in
      let rest = arm_loop w' pid wp (armed ++ (t ∷ [])) ts in
      if done then rest else (disarm_loop w' pid wp.slot armed, false)

  unfoldable pub arm_all_threads : k.World → ℕ → Watchpoint → k.World × Bool
  arm_all_threads w pid wp = elim (threads_list k w pid max_threads) [
    | none ↦ (w, false)
    | some threads ↦ arm_loop w pid wp [] threads
  ]

  unfoldable pub disarm_all_threads : k.World → ℕ → Watchpoint → k.World
  disarm_all_threads w pid wp = elim (threads_list k w pid max_threads) [
    | none ↦ w
    | some threads ↦ disarm_loop w pid wp.slot threads
  ]

  unfoldable pub disarm_enabled : k.World → ℕ → List Watchpoint → k.World
  disarm_enabled w pid [] = w
  disarm_enabled w pid (wp ∷ wps) =
      disarm_enabled (if wp.enabled then disarm_all_threads w pid wp else w) pid wps

  unfoldable pub rearm_enabled : k.World → ℕ → List Watchpoint → k.World × Bool
  rearm_enabled w pid [] = (w, true)
  rearm_enabled w pid (wp ∷ wps) =
      let (w', done) = if wp.enabled then arm_all_threads w pid wp else (w, true) in
      let rest = rearm_enabled w' pid wps in if done then rest else (w', false)

  -- After the wait: an exit counts as success, other errors do not.
  unfoldable pub after_step_past : Cdbg → k.World → Rc → Result k Bool
  after_step_past d w ok =
      if is_stopped d.state
      then (let (w', done) = rearm_enabled w d.pid (live d.watchpoints) in (d, w', done))
      else (d, w, true)
  after_step_past d w exited = (d, w, is_idle d.state)
  after_step_past d w failed = (d, w, is_idle d.state)

  unfoldable pub step_past_all_watchpoints : ℕ → Cdbg → k.World → Result k Bool
  step_past_all_watchpoints rounds d w =
      let w1 = disarm_enabled w d.pid (live d.watchpoints) in
      let (d2, w2, stepped) = single_step k d w1 in
      let (d3, w3, rc) = wait k rounds d2 w2 in
      if stepped then after_step_past d3 w3 rc else (d2, w2, false)
