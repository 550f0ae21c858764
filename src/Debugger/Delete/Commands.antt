-- ===== src/Debugger/Delete/Commands.antt =====
-- `cmd_del` and `cmd_delwatch` of src/debugger.c: the two tables.
use macos_c_debugger_arm.Breakpoint.{Breakpoint, no_breakpoint, bp_disable}
use macos_c_debugger_arm.Debugger.Delete.{
  Selection, is_live, delete_breakpoint_at, delete_watchpoint_at, del, delwatch,
}
use macos_c_debugger_arm.Debugger.Delete.Removal.{
  Fits, Removes, left_by, left_by-empty, remove_at-set, delete_selected-live,
}
use macos_c_debugger_arm.Debugger.State.{Cdbg}
use macos_c_debugger_arm.Kernel.{Kernel}
use macos_c_debugger_arm.Prelude.{
  ◌≡◌, ◌∙◌, inl, inr, Bool, true, false, arith, ◌==◌, leb, if◌then◌else◌, length-set, set, get_or,
  Bool-cases,
}
use macos_c_debugger_arm.Table.{Table, live, remove_entry}
use macos_c_debugger_arm.Table.Remove.{remove_entry-live, length-remove_entry}
use macos_c_debugger_arm.Watchpoint.{no_watchpoint}

module _ (k : Kernel) where
  delete_breakpoint_at-Removes : Removes k (delete_breakpoint_at k) (λ d. d.breakpoints)
  unfolding delete_breakpoint_at remove_entry
  delete_breakpoint_at-Removes d w i fits lt done =
      let t = d.breakpoints in
      let bp = get_or t.entries i no_breakpoint in
      let disabled : Breakpoint × k.World × Bool =
        if is_live d then bp_disable k bp w d.pid else (record bp { enabled = false }, w, true) in
      let t' : Table Breakpoint = record t { entries = set t.entries i disabled.0 } in
      let within : leb t.count i ≡ false = ground arith in
      let size = length-set t.entries i disabled.0 in
      elim (Bool-cases disabled.2) [
        | inr e ↦ cc (rw (delete_breakpoint_at, within, e) at done)
        | inl e ↦
            rw (delete_breakpoint_at, within, e)
              (
                omega (arith, length-remove_entry no_breakpoint t' i, size),
                remove_entry-live no_breakpoint t' i lt (omega (arith, size))
                    ∙ remove_at-set i t.count t.entries disabled.0,
              )
      ]

  delete_watchpoint_at-Removes : Removes k (delete_watchpoint_at k) (λ d. d.watchpoints)
  unfolding delete_watchpoint_at remove_entry
  delete_watchpoint_at-Removes d w i fits lt done =
      let t = d.watchpoints in
      let within : leb t.count i ≡ false = ground arith in
      rw (delete_watchpoint_at, within)
        (
          omega (arith, length-remove_entry no_watchpoint t i),
          remove_entry-live no_watchpoint t i lt fits,
        )

  -- If the entries in use are within the array, a del that returns 0 leaves, in their order, the
  -- breakpoints whose numbers the arguments do not name: none for all, and as it was a table that is
  -- empty.
  pub del-left_by :
      (d : Cdbg) (w : k.World) (s : Selection)
      → Fits d.breakpoints
      → (del k d w s).2 ≡ true
      → live (del k d w s).0.breakpoints ≡ left_by s (live d.breakpoints)
  unfolding del
  del-left_by d w s fits done = elim (Bool-cases (d.breakpoints.count == 0)) [
    | inl e ↦ rw (del, e) (left_by-empty s d.breakpoints (ground arith))
    | inr e ↦
        rw (del, e)
          (delete_selected-live k (delete_breakpoint_at k) (λ d'. d'.breakpoints)
            delete_breakpoint_at-Removes d w s fits (rw (del, e) at done))
  ]

  -- If the entries in use are within the array, a delwatch that returns 0 leaves, in their order, the
  -- watchpoints whose numbers the arguments do not name: none for all, and as it was a table that is
  -- empty.
  delwatch-left_by :
      (d : Cdbg) (w : k.World) (s : Selection)
      → Fits d.watchpoints
      → (delwatch k d w s).2 ≡ true
      → live (delwatch k d w s).0.watchpoints ≡ left_by s (live d.watchpoints)
  unfolding delwatch
  delwatch-left_by d w s fits done = elim (Bool-cases (d.watchpoints.count == 0)) [
    | inl e ↦ rw (delwatch, e) (left_by-empty s d.watchpoints (ground arith))
    | inr e ↦
        rw (delwatch, e)
          (delete_selected-live k (delete_watchpoint_at k) (λ d'. d'.watchpoints)
            delete_watchpoint_at-Removes d w s fits (rw (delwatch, e) at done))
  ]
