-- ===== src/Table.antt =====
-- The tables of `struct cdbg` (include/debugger.h): an array of fixed capacity, of which the first `count`
-- entries are in use. The breakpoints and the watchpoints are such tables, and `delete_breakpoint_at` and
-- `delete_watchpoint_at` of src/debugger.c close the gap in the same way.
pub mod Remove
mod Tests
use macos_c_debugger_arm.Prelude.{ℕ, zero, suc, ◌+◌, ◌-◌, List, [], ◌∷◌, take, get_or, set}

pub record Table (A : Type 0) : Type 0 where
  pub entries : List A
  pub count : ℕ

module _ {A : Type 0} where
  -- The entries in use.
  abbrev pub live : Table A → List A
  live t = take t.count t.entries

  -- for (i = index + 1; i < count; i++) entries[i - 1] = entries[i], with `rounds` to go.
  unfoldable pub shift_down : A → (rounds i : ℕ) → List A → List A
  shift_down blank zero i xs = xs
  shift_down blank (suc rounds) i xs =
      shift_down blank rounds (i + 1) (set xs (i - 1) (get_or xs i blank))

  -- The entries after `index` move down, the last place is cleared.
  unfoldable pub remove_entry : A → Table A → ℕ → Table A
  unfolding shift_down
  remove_entry blank t index = record {
    entries =
        set (shift_down blank (t.count - (index + 1)) (index + 1) t.entries) (t.count - 1) blank;
    count = t.count - 1;
  }
