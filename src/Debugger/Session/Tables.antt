-- ===== src/Debugger/Session/Tables.antt =====
-- What the tables of `struct cdbg` (include/debugger.h) keep to, and what the changes of single entries do to it.
use macos_c_debugger_arm.Breakpoint.{Breakpoint}
use macos_c_debugger_arm.Debugger.Slots.{IsFree}
use macos_c_debugger_arm.Debugger.State.{Cdbg, max_breakpoints}
use macos_c_debugger_arm.Debugger.Stop.{map_first}
use macos_c_debugger_arm.Prelude.{
  ℕ, zero, suc, ◌+◌, ◌≤◌, ◌<◌, ◌≡◌, ◌≢◌, refl, sym, subst, ap, ◌∙◌, true, false, List, [], ◌∷◌,
  arith, length, length-set, take, set, get_or,
}
use macos_c_debugger_arm.Table.{Table, live, remove_entry}
use macos_c_debugger_arm.Table.Remove.{remove_at, remove_entry-live, length-remove_entry}
use macos_c_debugger_arm.Watchpoint.{Watchpoint, no_watchpoint, max_watchpoints}

-- The enabled watchpoints have slots of the hardware, each a different one.
abbrev pub HaveOwnSlots : List Watchpoint → Type 0
HaveOwnSlots [] = Unit
HaveOwnSlots (wp ∷ wps) =
    (wp.enabled ≡ true → (wp.slot < max_watchpoints) × IsFree wp.slot wps) × HaveOwnSlots wps

abbrev pub BreakpointsFit : Table Breakpoint → Type 0
BreakpointsFit t = (length t.entries ≡ max_breakpoints) × (t.count ≤ max_breakpoints)

abbrev pub WatchpointsFit : Table Watchpoint → Type 0
WatchpointsFit t =
    (length t.entries ≡ max_watchpoints) × (t.count ≤ max_watchpoints) × HaveOwnSlots (live t)

abbrev pub IsWellFormed : Cdbg → Type 0
IsWellFormed d = BreakpointsFit d.breakpoints × WatchpointsFit d.watchpoints

IsFree-remove_at : (s i : ℕ) (wps : List Watchpoint) → IsFree s wps → IsFree s (remove_at i wps)
unfolding remove_at
IsFree-remove_at s i [] h = tt
IsFree-remove_at s zero (wp ∷ wps) h = h.1
IsFree-remove_at s (suc i) (wp ∷ wps) h = (h.0, IsFree-remove_at s i wps h.1)

HaveOwnSlots-remove_at :
    (i : ℕ) (wps : List Watchpoint) → HaveOwnSlots wps → HaveOwnSlots (remove_at i wps)
unfolding remove_at
HaveOwnSlots-remove_at i [] h = tt
HaveOwnSlots-remove_at zero (wp ∷ wps) h = h.1
HaveOwnSlots-remove_at (suc i) (wp ∷ wps) h = (
  λ on. ((h.0 on).0, IsFree-remove_at wp.slot i wps (h.0 on).1),
  HaveOwnSlots-remove_at i wps h.1,
)

pub WatchpointsFit-remove_entry :
    (t : Table Watchpoint) (i : ℕ)
    → WatchpointsFit t
    → i < t.count
    → WatchpointsFit (remove_entry no_watchpoint t i)
WatchpointsFit-remove_entry t i h lt = (
  length-remove_entry no_watchpoint t i ∙ h.0,
  unfold remove_entry in omega arith,
  subst HaveOwnSlots (sym (remove_entry-live no_watchpoint t i lt (omega arith)))
      (HaveOwnSlots-remove_at i (live t) h.2),
)

pub BreakpointsFit-remove_entry :
    (d : Breakpoint) (t : Table Breakpoint) (i : ℕ)
    → BreakpointsFit t
    → BreakpointsFit (remove_entry d t i)
BreakpointsFit-remove_entry d t i h =
    (length-remove_entry d t i ∙ h.0, unfold remove_entry in omega arith)

pub BreakpointsFit-set :
    (t : Table Breakpoint) (i : ℕ) (bp : Breakpoint)
    → BreakpointsFit t
    → BreakpointsFit (record t { entries = set t.entries i bp })
BreakpointsFit-set t i bp h = (length-set t.entries i bp ∙ h.0, h.1)

-- The new slot is free, so none of those before has it.
IsFree-add :
    (s : ℕ) (wp : Watchpoint) (n : ℕ) (wps : List Watchpoint)
    → n < length wps
    → (wp.enabled ≡ true → wp.slot ≢ s)
    → IsFree s (take n wps)
    → IsFree s (take (suc n) (set wps n wp))
IsFree-add s wp n [] lt ne h = elim lt [ ]
IsFree-add s wp zero (x ∷ wps) lt ne h = (ne, tt)
IsFree-add s wp (suc n) (x ∷ wps) lt ne h = (h.0, IsFree-add s wp n wps (omega arith) ne h.1)

HaveOwnSlots-add :
    (wp : Watchpoint) (n : ℕ) (wps : List Watchpoint)
    → n < length wps
    → wp.slot < max_watchpoints
    → IsFree wp.slot (take n wps)
    → HaveOwnSlots (take n wps)
    → HaveOwnSlots (take (suc n) (set wps n wp))
HaveOwnSlots-add wp n [] lt small free h = elim lt [ ]
HaveOwnSlots-add wp zero (x ∷ wps) lt small free h = (λ on. (small, tt), tt)
HaveOwnSlots-add wp (suc n) (x ∷ wps) lt small free h = (
  λ on. (
    (h.0 on).0,
    IsFree-add x.slot wp n wps (omega arith) (λ on' e. free.0 on (sym e)) (h.0 on).1,
  ),
  HaveOwnSlots-add wp n wps (omega arith) small free.1 h.1,
)

pub WatchpointsFit-add :
    (t : Table Watchpoint) (wp : Watchpoint)
    → WatchpointsFit t
    → t.count < max_watchpoints
    → wp.slot < max_watchpoints
    → IsFree wp.slot (live t)
    → WatchpointsFit (record { entries = set t.entries t.count wp; count = t.count + 1 })
WatchpointsFit-add t wp h room small free =
    let next : suc t.count ≡ t.count + 1 = omega arith in
    (
      length-set t.entries t.count wp ∙ h.0,
      omega arith,
      subst (λ m. HaveOwnSlots (take m (set t.entries t.count wp))) next
          (HaveOwnSlots-add wp t.count t.entries (omega arith) small free h.2),
    )

-- What is written behind the entries in use is not seen.
take-set_behind : {A : Type 0} (n : ℕ) (xs : List A) (v : A) → take n (set xs n v) ≡ take n xs
take-set_behind zero xs v = refl
take-set_behind (suc n) [] v = refl
take-set_behind (suc n) (x ∷ xs) v = ap (λ ys. x ∷ ys) (take-set_behind n xs v)

pub WatchpointsFit-set_behind :
    (t : Table Watchpoint) (wp : Watchpoint)
    → WatchpointsFit t
    → WatchpointsFit (record t { entries = set t.entries t.count wp })
WatchpointsFit-set_behind t wp h = (
  length-set t.entries t.count wp ∙ h.0,
  h.1,
  subst HaveOwnSlots (sym (take-set_behind t.count t.entries wp)) h.2,
)

-- An entry may get another with the same slot that is as enabled.
IsFree-set :
    (s n i : ℕ) (wps : List Watchpoint) (wp : Watchpoint)
    → wp.slot ≡ (get_or wps i no_watchpoint).slot
    → wp.enabled ≡ (get_or wps i no_watchpoint).enabled
    → IsFree s (take n wps)
    → IsFree s (take n (set wps i wp))
IsFree-set s zero i wps wp e f h = tt
IsFree-set s (suc n) i [] wp e f h = tt
IsFree-set s (suc n) zero (x ∷ wps) wp e f h = (λ on same. h.0 (sym f ∙ on) (sym e ∙ same), h.1)
IsFree-set s (suc n) (suc i) (x ∷ wps) wp e f h = (h.0, IsFree-set s n i wps wp e f h.1)

HaveOwnSlots-set :
    (n i : ℕ) (wps : List Watchpoint) (wp : Watchpoint)
    → wp.slot ≡ (get_or wps i no_watchpoint).slot
    → wp.enabled ≡ (get_or wps i no_watchpoint).enabled
    → HaveOwnSlots (take n wps)
    → HaveOwnSlots (take n (set wps i wp))
HaveOwnSlots-set zero i wps wp e f h = tt
HaveOwnSlots-set (suc n) i [] wp e f h = tt
HaveOwnSlots-set (suc n) zero (x ∷ wps) wp e f h = (
  subst (λ s. wp.enabled ≡ true → (s < max_watchpoints) × IsFree s (take n wps)) (sym e)
      (λ on. h.0 (sym f ∙ on)),
  h.1,
)
HaveOwnSlots-set (suc n) (suc i) (x ∷ wps) wp e f h = (
  λ on. ((h.0 on).0, IsFree-set x.slot n i wps wp e f (h.0 on).1),
  HaveOwnSlots-set n i wps wp e f h.1,
)

pub WatchpointsFit-set :
    (t : Table Watchpoint) (i : ℕ) (wp : Watchpoint)
    → wp.slot ≡ (get_or t.entries i no_watchpoint).slot
    → wp.enabled ≡ (get_or t.entries i no_watchpoint).enabled
    → WatchpointsFit t
    → WatchpointsFit (record t { entries = set t.entries i wp })
WatchpointsFit-set t i wp e f h =
    (length-set t.entries i wp ∙ h.0, h.1, HaveOwnSlots-set t.count i t.entries wp e f h.2)

length-map_first :
    {A : Type 0} (f : A → A) (n : ℕ) (xs : List A) → length (map_first f n xs) ≡ length xs
unfolding map_first
length-map_first f zero xs = refl
length-map_first f (suc n) [] = refl
length-map_first f (suc n) (x ∷ xs) = ap suc (length-map_first f n xs)

HaveOwnSlots-off :
    (n : ℕ) (wps : List Watchpoint)
    → HaveOwnSlots (take n (map_first (λ wp. record wp { enabled = false }) n wps))
unfolding map_first
HaveOwnSlots-off zero wps = tt
HaveOwnSlots-off (suc n) [] = tt
HaveOwnSlots-off (suc n) (wp ∷ wps) = (λ on. cc, HaveOwnSlots-off n wps)

pub WatchpointsFit-off :
    (t : Table Watchpoint)
    → WatchpointsFit t
    → WatchpointsFit
        (record t { entries = map_first (λ wp. record wp { enabled = false }) t.count t.entries })
WatchpointsFit-off t h = (
  length-map_first (λ wp. record wp { enabled = false }) t.count t.entries ∙ h.0,
  h.1,
  HaveOwnSlots-off t.count t.entries,
)

pub BreakpointsFit-off :
    (t : Table Breakpoint)
    → BreakpointsFit t
    → BreakpointsFit
        (record t { entries = map_first (λ bp. record bp { enabled = false }) t.count t.entries })
BreakpointsFit-off t h =
    (length-map_first (λ bp. record bp { enabled = false }) t.count t.entries ∙ h.0, h.1)
