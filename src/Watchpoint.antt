-- ===== src/Watchpoint.antt =====
-- src/watchpoint.c: hardware watchpoints, which are programmed into a thread's debug registers.
pub mod Mask
pub mod Arm
pub mod Syndrome
mod Tests
use macos_c_debugger_arm.Kernel.{Kernel, DebugState}
use macos_c_debugger_arm.Prelude.{
  ℕ, ◌+◌, ◌-◌, ◌*◌, ◌/◌, ◌^◌, Bool, true, false, not, ◌&&◌, ◌||◌, Option, none, some, ◌==◌, ltb,
  leb, if◌then◌else◌, get_or, set, bit_and, bit_or, u64,
}
use macos_c_debugger_arm.Memory.{complement64}
use macos_c_debugger_arm.Regs.{regs_get_debug_state, regs_set_debug_state}

-- CDBG_MAX_WATCHPOINTS
abbrev pub max_watchpoints : ℕ
max_watchpoints = 4

-- `cdbg_watch_kind_t`, and its value in C.
pub data WatchKind : Type 0 where
  read write access : WatchKind

abbrev pub kind_bits : WatchKind → ℕ
kind_bits read = 1
kind_bits write = 2
kind_bits access = 3

-- The text of the expression is only printed, and is left out.
pub record Watchpoint : Type 0 where
  pub addr : ℕ
  pub size : ℕ
  pub kind : WatchKind
  pub enabled : Bool
  pub slot : ℕ
  pub last_value : ℕ
  pub has_last_value : Bool

abbrev pub no_watchpoint : Watchpoint
no_watchpoint = record {
  addr = 0;
  size = 0;
  kind = read;
  enabled = false;
  slot = 0;
  last_value = 0;
  has_last_value = false;
}

-- The byte-address-select mask, and the control register: WCR_ENABLE, WCR_PAC_EL0, the mask at bit 5,
-- and WCR_LSC_LOAD and WCR_LSC_STORE by the kind.
unfoldable pub bas_mask : ℕ → ℕ → ℕ
bas_mask size offset = u64 ((2 ^ size - 1) * 2 ^ offset)

unfoldable pub control_word : ℕ → ℕ → WatchKind → ℕ
unfolding bas_mask
control_word size offset kind =
    let wcr = bit_or (bit_or 1 4) (u64 (bas_mask size offset * 2 ^ 5)) in
    let loads = if bit_and (kind_bits kind) 1 == 0 then wcr else bit_or wcr 8 in
    if bit_and (kind_bits kind) 2 == 0 then loads else bit_or loads 16

-- The checks on the request: size, and the granule of eight bytes.
unfoldable pub request_fits : ℕ → ℕ → ℕ → Bool
request_fits slot addr size =
    ltb slot max_watchpoints
    && (not (size == 0 || ltb 8 size) && not (ltb 8 (bit_and addr 7 + size)))

-- The registers with the slot programmed.
unfoldable pub program_slot : DebugState → ℕ → ℕ → ℕ → WatchKind → DebugState
program_slot state slot addr size kind = record {
  wvr = set state.wvr slot (bit_and addr (complement64 7));
  wcr = set state.wcr slot (control_word size (bit_and addr 7) kind);
}

-- The registers with the enable bit of the slot cleared.
unfoldable pub clear_slot : DebugState → ℕ → DebugState
clear_slot state slot = record state {
  wcr = set state.wcr slot (bit_and (get_or state.wcr slot 0) (complement64 1));
}

module _ (k : Kernel) where
  unfoldable pub watch_arm : k.World → ℕ → ℕ → ℕ → ℕ → ℕ → WatchKind → k.World × Bool
  watch_arm w pid tid slot addr size kind =
      if request_fits slot addr size
      then (elim (regs_get_debug_state k w pid tid) [
        | none ↦ (w, false)
        | some state ↦
            let wcr = control_word size (bit_and addr 7) kind in
            let (w', stored) =
              regs_set_debug_state k w pid tid (program_slot state slot addr size kind) in
            if stored
            then elim (regs_get_debug_state k w' pid tid) [
              | none ↦ (w', false)
              | some verify ↦ (w', get_or verify.wcr slot 0 == wcr)
            ]
            else (w', false)
      ])
      else (w, false)

  unfoldable pub watch_disarm : k.World → ℕ → ℕ → ℕ → k.World × Bool
  watch_disarm w pid tid slot =
      if ltb slot max_watchpoints
      then (elim (regs_get_debug_state k w pid tid) [
        | none ↦ (w, false)
        | some state ↦ regs_set_debug_state k w pid tid (clear_slot state slot)
      ])
      else (w, false)

unfoldable pub watch_addr_hit : Watchpoint → ℕ → Bool
watch_addr_hit wp fault_addr =
    if wp.enabled then leb wp.addr fault_addr && ltb fault_addr (u64 (wp.addr + wp.size)) else false

-- For a watchpoint exception `*is_write_out`; else `none`, for false.
unfoldable pub watchpoint_esr : ℕ → Option Bool
watchpoint_esr esr =
    let ec = bit_and (esr / 2 ^ 26) 0x3f in
    if ec == 0x34 || ec == 0x35 then some (not (bit_and esr (2 ^ 6) == 0)) else none
