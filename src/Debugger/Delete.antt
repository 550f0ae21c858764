-- ===== src/Debugger/Delete.antt =====
-- Deleting entries: `delete_breakpoint_at`, `delete_watchpoint_at`, and the index lists of `cmd_del` and
-- `cmd_delwatch` (src/debugger.c), which are the same code over the two tables. The text of the command is
-- split by `strtok` and read by `parse_u64` before; here an argument is the number read, or `none`.
pub mod Indices
pub mod Without
pub mod Removal
pub mod Commands
use macos_c_debugger_arm.Breakpoint.{Breakpoint, no_breakpoint, bp_disable}
use macos_c_debugger_arm.Debugger.State.{Cdbg, Result, is_idle}
use macos_c_debugger_arm.Debugger.Watch.{disarm_all_threads}
use macos_c_debugger_arm.Kernel.{Kernel}
use macos_c_debugger_arm.Prelude.{
  ℕ, zero, suc, ◌-◌, Bool, true, false, not, ◌&&◌, Option, none, some, List, [], ◌∷◌, ◌++◌, ◌==◌,
  ltb, leb, if◌then◌else◌, get_or, set, length,
}
use macos_c_debugger_arm.Table.{Table, remove_entry}
use macos_c_debugger_arm.Watchpoint.{Watchpoint, no_watchpoint}

-- dbg->pid > 0 && dbg->state != CDBG_STATE_IDLE
abbrev pub is_live : Cdbg → Bool
is_live d = not (d.pid == 0) && not (is_idle d.state)

-- What follows the name of the command: nothing, the word "all", or numbers.
pub data Selection : Type 0 where
  nothing all : Selection
  numbers : List (Option ℕ) → Selection

unfoldable pub contains : ℕ → List ℕ → Bool
contains n [] = false
contains n (i ∷ is) = if i == n then true else contains n is

-- The indices named on the command line: each below `count`, without duplicates, in the order of their first
-- mention. `none` where one cannot be read or is out of range.
unfoldable pub collect_indices : ℕ → List ℕ → List (Option ℕ) → Option (List ℕ)
unfolding contains
collect_indices count indices [] = some indices
collect_indices count indices (none ∷ args) = none
collect_indices count indices (some number ∷ args) =
    let next =
      collect_indices count (if contains number indices then indices else indices ++ (number ∷ []))
        args in
    if leb count number then none else next

-- The inner loop of the sort, for indices[i] = x: the largest comes to the front, and each place keeps the
-- smaller of the two that are compared.
unfoldable pub select_largest : ℕ → List ℕ → ℕ × List ℕ
select_largest x [] = (x, [])
select_largest x (y ∷ ys) =
    let (largest, rest) = select_largest (if ltb x y then y else x) ys in
    (largest, (if ltb x y then x else y) ∷ rest)

-- The outer loop, with the places still to fill as fuel: there are as many as elements.
unfoldable pub sort_loop : ℕ → List ℕ → List ℕ
unfolding select_largest
sort_loop zero xs = xs
sort_loop (suc places) [] = []
sort_loop (suc places) (x ∷ xs) =
    let (largest, rest) = select_largest x xs in largest ∷ sort_loop places rest

unfoldable pub sort_indices : List ℕ → List ℕ
unfolding sort_loop
sort_indices xs = sort_loop (length xs) xs

module _ (k : Kernel) where
  -- The breakpoint is disabled first, in the process or, where there is none, in the table.
  unfoldable pub delete_breakpoint_at : Cdbg → k.World → ℕ → Result k Bool
  delete_breakpoint_at d w index =
      let table = d.breakpoints in
      let bp = get_or table.entries index no_breakpoint in
      let (bp', w', done) =
        if is_live d then bp_disable k bp w d.pid else (record bp { enabled = false }, w, true) in
      let disabled : Table Breakpoint = record table { entries = set table.entries index bp' } in
      if leb table.count index
      then (d, w, false)
      else if done
      then (record d { breakpoints = remove_entry no_breakpoint disabled index }, w', true)
      else (record d { breakpoints = disabled }, w', false)

  unfoldable pub delete_watchpoint_at : Cdbg → k.World → ℕ → Result k Bool
  delete_watchpoint_at d w index =
      let table = d.watchpoints in
      let wp = get_or table.entries index no_watchpoint in
      if leb table.count index then (d, w, false) else (
        record d { watchpoints = remove_entry no_watchpoint table index },
        (if is_live d then disarm_all_threads k w d.pid wp else w),
        true,
      )

  -- The last loop of the commands, over either table; it stops at the first failure.
  unfoldable pub delete_each :
      (Cdbg → k.World → ℕ → Result k Bool) → Cdbg → k.World → List ℕ → Result k Bool
  delete_each delete_at d w [] = (d, w, true)
  delete_each delete_at d w (i ∷ is) =
      let (d', w', done) = delete_at d w i in
      let rest = delete_each delete_at d' w' is in if done then rest else (d', w', false)

  unfoldable pub delete_listed :
      (Cdbg → k.World → ℕ → Result k Bool) → ℕ → Cdbg → k.World → List (Option ℕ) → Result k Bool
  delete_listed delete_at count d w args = elim (collect_indices count [] args) [
    | none ↦ (d, w, false)
    | some indices ↦ delete_each delete_at d w (sort_indices indices)
  ]

  -- `del all`: the last entry goes until none is left. The count is enough rounds.
  unfoldable pub delete_all :
      (Cdbg → k.World → ℕ → Result k Bool) → (Cdbg → ℕ) → ℕ → Cdbg → k.World → Result k Bool
  delete_all delete_at count zero d w = (d, w, true)
  delete_all delete_at count (suc rounds) d w =
      let (d', w', done) = delete_at d w (count d - 1) in
      let rest = delete_all delete_at count rounds d' w' in
      if count d == 0 then (d, w, true) else if done then rest else (d', w', false)

  unfoldable pub delete_selected :
      (Cdbg → k.World → ℕ → Result k Bool) → (Cdbg → ℕ) → Cdbg → k.World → Selection → Result k Bool
  unfolding delete_listed delete_all
  delete_selected delete_at count d w nothing = (d, w, false)
  delete_selected delete_at count d w all = delete_all delete_at count (count d) d w
  delete_selected delete_at count d w (numbers args) = delete_listed delete_at (count d) d w args

  -- `del` and `delwatch`.
  unfoldable pub del : Cdbg → k.World → Selection → Result k Bool
  unfolding delete_selected delete_breakpoint_at
  del d w selection =
      if d.breakpoints.count == 0
      then (d, w, true)
      else delete_selected delete_breakpoint_at (λ d'. d'.breakpoints.count) d w selection

  unfoldable pub delwatch : Cdbg → k.World → Selection → Result k Bool
  unfolding delete_selected delete_watchpoint_at
  delwatch d w selection =
      if d.watchpoints.count == 0
      then (d, w, true)
      else delete_selected delete_watchpoint_at (λ d'. d'.watchpoints.count) d w selection
