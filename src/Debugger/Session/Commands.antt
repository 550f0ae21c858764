-- ===== src/Debugger/Session/Commands.antt =====
-- The commands of src/debugger.c that change the tables keep them well formed.
use macos_c_debugger_arm.Breakpoint.{Breakpoint, no_breakpoint, bp_enable, bp_disable}
use macos_c_debugger_arm.Debugger.Delete.{
  Selection, nothing, all, numbers, collect_indices, sort_indices, is_live, delete_breakpoint_at,
  delete_watchpoint_at, delete_each, delete_listed, delete_all, delete_selected, del, delwatch,
}
use macos_c_debugger_arm.Debugger.Enter.{
  Located, add_breakpoint, new_watchpoint, place_watchpoint, add_watchpoint, select_thread,
}
use macos_c_debugger_arm.Debugger.Session.Process.{Keeps}
use macos_c_debugger_arm.Debugger.Session.Tables.{
  IsWellFormed, BreakpointsFit, BreakpointsFit-set, WatchpointsFit-add, WatchpointsFit-set_behind,
  BreakpointsFit-remove_entry, WatchpointsFit-remove_entry,
}
use macos_c_debugger_arm.Debugger.Slots.{IsFree, find_free_watch_slot_lem}
use macos_c_debugger_arm.Debugger.State.{
  Cdbg, is_idle, is_stopped, Result, refresh_regs, max_breakpoints,
}
use macos_c_debugger_arm.Debugger.Watch.{arm_all_threads, find_free_watch_slot}
use macos_c_debugger_arm.Kernel.{Kernel}
use macos_c_debugger_arm.Prelude.{
  by_if, by_option, ℕ, zero, suc, ◌-◌, ◌<◌, ◌≡◌, sym, subst, ◌∙◌, inl, inr, Bool, true, false, not,
  ◌||◌, Option, some, List, [], ◌∷◌, arith, ◌==◌, leb, ltb, length-set, get_elem?, get_or, set,
  if◌then◌else◌, Bool-cases, Option-cases,
}
use macos_c_debugger_arm.Table.{Table, live}
use macos_c_debugger_arm.Threads.{threads_list, max_threads}
use macos_c_debugger_arm.Watchpoint.{Watchpoint, WatchKind, no_watchpoint, max_watchpoints}

module _ (k : Kernel) where
  pub add_breakpoint-Keeps :
      (d : Cdbg) (w : k.World) (addr : ℕ) → IsWellFormed d → Keeps k (add_breakpoint k d w addr)
  unfolding add_breakpoint
  add_breakpoint-Keeps d w addr h =
      let t = d.breakpoints in
      let bp = bp_enable k (get_or t.entries t.count no_breakpoint) w d.pid addr in
      let size = length-set t.entries t.count bp.0 ∙ h.0.0 in
      elim (Bool-cases (leb max_breakpoints t.count)) [
        | inl full ↦ rw (full, add_breakpoint) h
        | inr room ↦
            rw (room, add_breakpoint)
              (by_if (Keeps k) bp.2 ((size, ground (arith, room)), h.1) ((size, h.0.1), h.1))
      ]

  new_watchpoint-slot :
      (w : k.World) (pid : ℕ) (target : Located) (kind : WatchKind) (slot : ℕ)
      → (new_watchpoint k w pid target kind slot).slot ≡ slot
  unfolding new_watchpoint
  new_watchpoint-slot w pid target kind slot = ground arith

  place-Keeps :
      (d : Cdbg) (w : k.World) (target : Located) (kind : WatchKind) (slot : ℕ)
      → IsWellFormed d
      → d.watchpoints.count < max_watchpoints
      → find_free_watch_slot (live d.watchpoints) ≡ some slot
      → Keeps k (place_watchpoint k d w target kind slot)
  unfolding place_watchpoint
  place-Keeps d w target kind slot h room found =
      let free = (find_free_watch_slot_lem (live d.watchpoints)).0 slot found in
      let asked : Watchpoint = record no_watchpoint {
        addr = target.addr;
        size = target.size;
        kind = kind;
        slot = slot;
      } in
      let w' = (arm_all_threads k w d.pid asked).0 in
      let wp = new_watchpoint k w' d.pid target kind slot in
      let own = new_watchpoint-slot w' d.pid target kind slot in
      let placed =
        WatchpointsFit-add d.watchpoints wp h.1 room (omega (arith, own, free.0))
          (subst (λ s. IsFree s (live d.watchpoints)) (sym own) free.1) in
      by_if (Keeps k) target.whole_struct h (
        by_if (Keeps k) (target.size == 0 || ltb 8 target.size) h (
          by_if (Keeps k) (arm_all_threads k w d.pid asked).1 (h.0, placed)
            (h.0, WatchpointsFit-set_behind d.watchpoints no_watchpoint h.1)))

  pub add_watchpoint-Keeps :
      (locate : Cdbg → k.World → Option Located) (allowed : Bool) (d : Cdbg) (w : k.World)
      (kind : WatchKind)
      → IsWellFormed d
      → Keeps k (add_watchpoint k locate allowed d w kind)
  unfolding add_watchpoint refresh_regs
  add_watchpoint-Keeps locate allowed d w kind h =
      let d1 = (refresh_regs k d w).0 in
      by_if (Keeps k) (d.pid == 0 || not (is_stopped d.state)) h (
        by_if (Keeps k) (not allowed) h (
          by_if (Keeps k) (not (refresh_regs k d w).1) h
            (elim (Bool-cases (leb max_watchpoints d.watchpoints.count)) [
              | inl full ↦ rw full h
              | inr room ↦
                  rw room (elim (Option-cases (find_free_watch_slot (live d.watchpoints))) [
                    | inl e ↦ rw e h
                    | inr (slot, e) ↦ rw e (
                        by_option (Keeps k) (locate d1 w) h
                          (λ target. place-Keeps d1 w target kind slot h (ground (arith, room)) e))
                  ])
            ])))

  pub select_thread-Keeps :
      (d : Cdbg) (w : k.World) (number : ℕ) → IsWellFormed d → Keeps k (select_thread k d w number)
  unfolding select_thread refresh_regs
  select_thread-Keeps d w number h = by_if (Keeps k) (d.pid == 0 || is_idle d.state) h (
      by_option (Keeps k) (threads_list k w d.pid max_threads) h
        (λ threads. by_option (Keeps k) (get_elem? threads number) h (λ thread. h)))

  delete_breakpoint-Keeps :
      (d : Cdbg) (w : k.World) (i : ℕ) → IsWellFormed d → Keeps k (delete_breakpoint_at k d w i)
  unfolding delete_breakpoint_at
  delete_breakpoint-Keeps d w i h =
      let t = d.breakpoints in
      let bp = get_or t.entries i no_breakpoint in
      let off : Breakpoint × k.World × Bool =
        if is_live d then bp_disable k bp w d.pid else (record bp { enabled = false }, w, true) in
      let t' : Table Breakpoint = record t { entries = set t.entries i off.0 } in
      let kept : BreakpointsFit t' = BreakpointsFit-set t i off.0 h.0 in
      by_if (Keeps k) (leb t.count i) h (
        by_if (Keeps k) off.2 (BreakpointsFit-remove_entry no_breakpoint t' i kept, h.1)
          (kept, h.1))

  delete_watchpoint-Keeps :
      (d : Cdbg) (w : k.World) (i : ℕ) → IsWellFormed d → Keeps k (delete_watchpoint_at k d w i)
  unfolding delete_watchpoint_at
  delete_watchpoint-Keeps d w i h = elim (Bool-cases (leb d.watchpoints.count i)) [
    | inl far ↦ rw (far, delete_watchpoint_at) h
    | inr near ↦
        rw (near, delete_watchpoint_at)
          (h.0, WatchpointsFit-remove_entry d.watchpoints i h.1 (ground (arith, near)))
  ]

  module _ (delete_at : Cdbg → k.World → ℕ → Result k Bool)
      (keeps : (d : Cdbg) (w : k.World) (i : ℕ) → IsWellFormed d → Keeps k (delete_at d w i)) where
    delete_each-Keeps :
        (is : List ℕ) (d : Cdbg) (w : k.World)
        → IsWellFormed d
        → Keeps k (delete_each k delete_at d w is)
    unfolding delete_each
    delete_each-Keeps [] d w h = h
    delete_each-Keeps (i ∷ is) d w h =
        let one = delete_at d w i in
        let kept = keeps d w i h in
        by_if (Keeps k) one.2 (delete_each-Keeps is one.0 one.1 kept) kept

    delete_all-Keeps :
        (count : Cdbg → ℕ) (n : ℕ) (d : Cdbg) (w : k.World)
        → IsWellFormed d
        → Keeps k (delete_all k delete_at count n d w)
    unfolding delete_all
    delete_all-Keeps count zero d w h = h
    delete_all-Keeps count (suc n) d w h =
        let one = delete_at d w (count d - 1) in
        let kept = keeps d w (count d - 1) h in
        by_if (Keeps k) (count d == 0) h
          (by_if (Keeps k) one.2 (delete_all-Keeps count n one.0 one.1 kept) kept)

    delete_selected-Keeps :
        (count : Cdbg → ℕ) (d : Cdbg) (w : k.World) (s : Selection)
        → IsWellFormed d
        → Keeps k (delete_selected k delete_at count d w s)
    unfolding delete_selected delete_listed
    delete_selected-Keeps count d w nothing h = h
    delete_selected-Keeps count d w all h = delete_all-Keeps count (count d) d w h
    delete_selected-Keeps count d w (numbers args) h =
        by_option (Keeps k) (collect_indices (count d) [] args) h
          (λ is. delete_each-Keeps (sort_indices is) d w h)

  pub del-Keeps : (d : Cdbg) (w : k.World) (s : Selection) → IsWellFormed d → Keeps k (del k d w s)
  unfolding del
  del-Keeps d w s h = by_if (Keeps k) (d.breakpoints.count == 0) h (
      delete_selected-Keeps (delete_breakpoint_at k) delete_breakpoint-Keeps
        (λ d'. d'.breakpoints.count) d w s h)

  pub delwatch-Keeps :
      (d : Cdbg) (w : k.World) (s : Selection) → IsWellFormed d → Keeps k (delwatch k d w s)
  unfolding delwatch
  delwatch-Keeps d w s h = by_if (Keeps k) (d.watchpoints.count == 0) h (
      delete_selected-Keeps (delete_watchpoint_at k) delete_watchpoint-Keeps
        (λ d'. d'.watchpoints.count) d w s h)
