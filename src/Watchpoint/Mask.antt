-- ===== src/Watchpoint/Mask.antt =====
-- The registers that `cdbg_watch_arm` of src/watchpoint.c computes, against what the hardware does with
-- them: a control word selects bytes of the granule of eight at the address in the value register.
use macos_c_debugger_arm.Kernel.{DebugState}
use macos_c_debugger_arm.Memory.{complement64}
use macos_c_debugger_arm.Prelude.Bits.{bit_and_mask, bit_and_high, passes_below, passes_below-lt}
use macos_c_debugger_arm.Prelude.{
  ℕ, ◌+◌, ◌-◌, ◌*◌, ◌/◌, ◌%◌, ◌^◌, ◌≤◌, ◌<◌, ◌≡◌, refl, ap, ◌∙◌, ◌↔◌, Bool, true, not, ◌&&◌, ◌||◌,
  arith, ◌==◌, leb, ltb, if◌then◌else◌, get_or, length, get_or-set_self, bit_and,
}
use macos_c_debugger_arm.Watchpoint.{
  WatchKind, read, write, access, kind_bits, control_word, program_slot, request_fits,
}

-- Bit `i` of a register.
abbrev pub bit : ℕ → ℕ → ℕ
bit word i = word / 2 ^ i % 2

-- What the hardware compares an access to the byte `b` with: the granule in the value register, and the
-- byte's bit in the BAS field of the control register, which begins at bit 5.
pub record Selects (wvr wcr b : ℕ) : Type 0 where
  pub enabled : bit wcr 0 ≡ 1
  pub granule : wvr ≡ b / 8 * 8
  pub byte : bit wcr (5 + b % 8) ≡ 1

abbrev same_truth : Bool → Bool → Bool
same_truth a b = if a then b else not b

-- One entry of the table below, for a size less one, an offset and a byte of the granule.
abbrev selects_right : WatchKind → ℕ → Bool
selects_right kind x =
    let size = x / 64 + 1 in
    let offset = x / 8 % 8 in
    let byte = x % 8 in
    let word = control_word size offset kind in
    ltb 8 (offset + size)
    || (same_truth (bit word (5 + byte) == 1) (leb offset byte && ltb byte (offset + size))
        && (bit word 0 == 1
            && (bit word 3 == kind_bits kind % 2 && bit word 4 == kind_bits kind / 2)))

selects_table : (kind : WatchKind) → passes_below (selects_right kind) 512 ≡ true
unfolding passes_below control_word
selects_table read = refl
selects_table write = refl
selects_table access = refl

-- For a range within the granule, the control word is enabled, selects exactly the bytes from offset to
-- offset + size, and has the load and the store bit of the kind.
control_word_lem :
    (kind : WatchKind) (size offset byte : ℕ)
    → 0 < size
    → offset + size ≤ 8
    → byte < 8
    → ((bit (control_word size offset kind) (5 + byte) ≡ 1)
        ↔ ((offset ≤ byte) × (byte < offset + size)))
      × (bit (control_word size offset kind) 0 ≡ 1)
      × (bit (control_word size offset kind) 3 ≡ kind_bits kind % 2)
      × (bit (control_word size offset kind) 4 ≡ kind_bits kind / 2)
control_word_lem kind size offset byte pos fits low =
    let x = (size - 1) * 64 + offset * 8 + byte in
    let size_of : x / 64 + 1 ≡ size = omega arith in
    let offset_of : x / 8 % 8 ≡ offset = omega arith in
    let byte_of : x % 8 ≡ byte = omega arith in
    let entry =
      rw (size_of, offset_of, byte_of) at
        (passes_below-lt (selects_right kind) 512 (selects_table kind) x (omega arith)) in
    ground arith

-- `addr & 7` and `addr & ~7`.
pub low_bits : (addr : ℕ) → bit_and addr 7 ≡ addr % 8
low_bits addr = bit_and_mask 3 addr

pub granule_of : (addr : ℕ) → addr < 2 ^ 64 → bit_and addr (complement64 7) ≡ addr / 8 * 8
granule_of addr h =
    bit_and_high 3 addr (2 ^ 61 - 1) ∙ ap (λ t. t * 8) (bit_and_mask 61 (addr / 8)) ∙ omega arith

pub request_fits-lt :
    (slot addr size : ℕ)
    → request_fits slot addr size ≡ true
    → (slot < 4) × (0 < size) × (addr % 8 + size ≤ 8)
unfolding request_fits
request_fits-lt slot addr size h = ground (arith, low_bits addr)

-- For a request that passes the checks, an address below 2^64 and a slot within both register arrays, the
-- two registers that are programmed select exactly the bytes from addr to addr + size, as the hardware
-- reads them.
pub program_slot-Selects :
    (state : DebugState) (slot addr size : ℕ) (kind : WatchKind) (b : ℕ)
    → addr < 2 ^ 64
    → slot < length state.wvr
    → slot < length state.wcr
    → request_fits slot addr size ≡ true
    → Selects
        (get_or (program_slot state slot addr size kind).wvr slot 0)
        (get_or (program_slot state slot addr size kind).wcr slot 0)
        b
      ↔ ((addr ≤ b) × (b < addr + size))
unfolding program_slot
program_slot-Selects state slot addr size kind b small v c fits =
    let checks = request_fits-lt slot addr size fits in
    let word = control_word_lem kind size (addr % 8) (b % 8) checks.1 checks.2 (omega arith) in
    rw
      (
        get_or-set_self state.wvr slot (bit_and addr (complement64 7)) 0 v,
        get_or-set_self state.wcr slot (control_word size (bit_and addr 7) kind) 0 c,
        granule_of addr small,
        low_bits addr,
      )
      (
        λ s. let range = word.0.0 s.byte in let at = s.granule in (omega arith, omega arith),
        λ r. record {
          enabled = word.1;
          granule = omega arith;
          byte = word.0.1 (omega arith, omega arith);
        },
      )
