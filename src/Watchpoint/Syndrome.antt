-- ===== src/Watchpoint/Syndrome.antt =====
-- `cdbg_watch_is_watchpoint_esr` of src/watchpoint.c: the exception class and the WnR bit.
use macos_c_debugger_arm.Prelude.Bits.{bit_and_mask, bit_and_high}
use macos_c_debugger_arm.Prelude.{
  ℕ, ◌*◌, ◌/◌, ◌%◌, ◌^◌, ◌≡◌, ap, ◌∙◌, ◌↔◌, ◌⊎◌, Bool, some, arith, ◌==◌, bit_and,
}
use macos_c_debugger_arm.Watchpoint.{watchpoint_esr}

class_of : (esr : ℕ) → bit_and (esr / 2 ^ 26) 0x3f ≡ esr / 2 ^ 26 % 64
class_of esr = bit_and_mask 6 (esr / 2 ^ 26)

write_bit : (esr : ℕ) → bit_and esr (2 ^ 6) ≡ esr / 64 % 2 * 64
write_bit esr = bit_and_high 6 esr 1 ∙ ap (λ t. t * 64) (bit_and_mask 1 (esr / 64))

-- A syndrome counts as a watchpoint exception exactly if its class is 0x34 or 0x35, and as a write exactly
-- if bit 6 is set.
watchpoint_esr_iff :
    (esr : ℕ) (is_write : Bool)
    → (watchpoint_esr esr ≡ some is_write) ↔ (
        ((esr / 2 ^ 26 % 64 ≡ 0x34) ⊎ (esr / 2 ^ 26 % 64 ≡ 0x35))
        × (is_write ≡ (esr / 64 % 2 == 1)))
unfolding watchpoint_esr
watchpoint_esr_iff esr is_write = ground (arith, class_of esr, write_bit esr)
