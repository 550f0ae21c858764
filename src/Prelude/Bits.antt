-- ===== src/Prelude/Bits.antt =====
-- Laws of `&` and `|` at variables: a word splits at any bit into two fields on which the operation
-- works apart. The masks that the source writes are instances. Last, checks of a range by running.
use Prim.Native.Nat.{max, digits, bitwise, bit_and-bitwise, bit_or-bitwise}
use Prim.Native.Nat.{ℕ, zero, suc, ◌+◌, ◌-◌, ◌*◌, ◌/◌, ◌%◌, ◌^◌, ◌≤◌, ◌<◌, min, bit_and, bit_or}
use mathlib.Core.Path.{◌≡◌, refl, ap, ap₂, sym, ◌∙◌}
use mathlib.Core.Bool.{Bool, true, ◌&&◌}
use mathlib.Core.Logic.{◌⊎◌, inl, inr}
use native.Mathlib.Omega.{arith}
use native.Mathlib.Nat.{pow-suc, one-le-pow}

-- One digit-wise operation: `f` on the digits, `z` on what is left of the second word when the
-- first has run out.
module _ (z : ℕ → ℕ) (f : ℕ → ℕ → ℕ) where
  -- One unit of fuel beyond the first word changes nothing.
  digits-spare : (n a b : ℕ) → a ≤ n → digits z f (suc n) a b ≡ digits z f n a b
  digits-spare zero zero b h = refl
  digits-spare zero (suc a) b h = absurd (omega arith)
  digits-spare (suc n) zero b h = refl
  digits-spare (suc n) (suc a) b h =
      ap (λ d. d * 2 + f (suc a % 2) (b % 2)) (digits-spare n (suc a / 2) (b / 2) (omega arith))

  last_or_earlier : (n a : ℕ) → a ≤ suc n → (a ≤ n) ⊎ (a ≡ suc n)
  last_or_earlier n a h = ground arith

  -- So any fuel that bounds the first word gives the meaning of the operation.
  digits-bitwise : (n a b : ℕ) → a ≤ n → digits z f n a b ≡ bitwise z f a b
  digits-bitwise zero zero b h = refl
  digits-bitwise zero (suc a) b h = absurd (omega arith)
  digits-bitwise (suc n) a b h = elim (last_or_earlier n a h) [
    | inl le ↦ digits-spare n a b le ∙ digits-bitwise n a b le
    | inr e ↦ rw e
  ]

-- The word with the fields `q` and `r`, cut above the lowest `k` bits.
abbrev pub join : ℕ → ℕ → ℕ → ℕ
join k q r = q * 2 ^ k + r

join_halves :
    (k q r : ℕ) → (join (suc k) q r / 2 ≡ join k q (r / 2)) × (join (suc k) q r % 2 ≡ r % 2)
join_halves k q r =
    let double : q * 2 ^ suc k ≡ 2 * (q * 2 ^ k) =
      omega (arith, ap (λ (t : ℕ). q * t) (pow-suc 2 k)) in
    (omega arith, omega arith)

module _ (z : ℕ → ℕ) (f op : ℕ → ℕ → ℕ) (meaning : (a b : ℕ) → op a b ≡ bitwise z f a b) where
  lowest_digit :
      ((b : ℕ) → z b ≡ z (b / 2) * 2 + f 0 (b % 2))
      → (a b : ℕ) → op a b ≡ op (a / 2) (b / 2) * 2 + f (a % 2) (b % 2)
  lowest_digit rest zero b =
      meaning 0 b ∙ rest b ∙ ap (λ t. t * 2 + f 0 (b % 2)) (sym (meaning 0 (b / 2)))
  lowest_digit rest (suc a) b =
      meaning (suc a) b
      ∙ ap (λ t. t * 2 + f (suc a % 2) (b % 2))
          (digits-bitwise z f a (suc a / 2) (b / 2) (omega arith) ∙ sym (meaning _ _))

-- The high fields and the low fields of two words do not meet.
module _ (op f : ℕ → ℕ → ℕ) (base : op 0 0 ≡ 0)
    (step : (a b : ℕ) → op a b ≡ op (a / 2) (b / 2) * 2 + f (a % 2) (b % 2)) where
  fields_apart :
      (k q r p s : ℕ)
      → r < 2 ^ k
      → s < 2 ^ k
      → op (join k q r) (join k p s) ≡ join k (op q p) (op r s)
  fields_apart zero q r p s hr hs =
      let er : r ≡ 0 = omega arith in
      let es : s ≡ 0 = omega arith in
      let eq : join 0 q r ≡ q = omega arith in
      let ep : join 0 p s ≡ p = omega arith in rw (eq, ep, er, es, base) (omega arith)
  fields_apart (suc k) q r p s hr hs =
      let halves =
        fields_apart k q (r / 2) p (s / 2) (omega (arith, pow-suc 2 k))
          (omega (arith, pow-suc 2 k)) in
      omega (
        arith,
        step (join (suc k) q r) (join (suc k) p s)
            ∙ ap₂ (λ x y. x * 2 + y) (ap₂ op (join_halves k q r).0 (join_halves k p s).0 ∙ halves)
                (ap₂ f (join_halves k q r).1 (join_halves k p s).1),
        step r s,
        ap (λ (t : ℕ). op q p * t) (pow-suc 2 k),
      )

pub bit_and-join :
    (k q r p s : ℕ)
    → r < 2 ^ k
    → s < 2 ^ k
    → bit_and (join k q r) (join k p s) ≡ join k (bit_and q p) (bit_and r s)
bit_and-join =
    fields_apart bit_and min refl
      (lowest_digit (λ b. 0) min bit_and bit_and-bitwise (λ b. omega arith))

pub bit_or-join :
    (k q r p s : ℕ)
    → r < 2 ^ k
    → s < 2 ^ k
    → bit_or (join k q r) (join k p s) ≡ join k (bit_or q p) (bit_or r s)
bit_or-join =
    fields_apart bit_or max refl
      (lowest_digit (λ b. b) max bit_or bit_or-bitwise (λ b. omega arith))

zero-bit_or : (b : ℕ) → bit_or 0 b ≡ b
zero-bit_or b = bit_or-bitwise 0 b

zero-bit_and : (b : ℕ) → bit_and 0 b ≡ 0
zero-bit_and b = bit_and-bitwise 0 b

-- A word is its halves, so a claim about words follows from the same claim about shorter ones.
bit_or-zero_below : (n a : ℕ) → a ≤ n → bit_or a 0 ≡ a
bit_or-zero_below n zero h = refl
bit_or-zero_below zero (suc a) h = absurd (omega arith)
bit_or-zero_below (suc n) (suc a) h =
    lowest_digit (λ b. b) max bit_or bit_or-bitwise (λ b. omega arith) (suc a) 0
    ∙ omega (arith, bit_or-zero_below n (suc a / 2) (omega arith))

bit_and-zero_below : (n a : ℕ) → a ≤ n → bit_and a 0 ≡ 0
bit_and-zero_below n zero h = refl
bit_and-zero_below zero (suc a) h = absurd (omega arith)
bit_and-zero_below (suc n) (suc a) h =
    lowest_digit (λ b. 0) min bit_and bit_and-bitwise (λ b. omega arith) (suc a) 0
    ∙ omega (arith, bit_and-zero_below n (suc a / 2) (omega arith))

pub bit_or-zero : (a : ℕ) → bit_or a 0 ≡ a
bit_or-zero a = bit_or-zero_below a a (omega arith)

pub bit_and-zero : (a : ℕ) → bit_and a 0 ≡ 0
bit_and-zero a = bit_and-zero_below a a (omega arith)

-- All ones in the lowest `k` bits keep a value of `k` bits.
bit_and-ones : (k r : ℕ) → r < 2 ^ k → bit_and r (2 ^ k - 1) ≡ r
bit_and-ones zero r h = let e : r ≡ 0 = omega arith in rw e
bit_and-ones (suc k) r h =
    let p = pow-suc 2 k in
    let one = one-le-pow k 2 in
    let half : (2 ^ suc k - 1) / 2 ≡ 2 ^ k - 1 = omega arith in
    let odd : (2 ^ suc k - 1) % 2 ≡ 1 = omega arith in
    lowest_digit (λ b. 0) min bit_and bit_and-bitwise (λ b. omega arith) r (2 ^ suc k - 1)
    ∙ rw (half, odd, bit_and-ones k (r / 2) (omega arith)) (omega arith)

join_parts : (k a : ℕ) → join k (a / 2 ^ k) (a % 2 ^ k) ≡ a
join_parts k a = ground (arith, one-le-pow k 2)

-- `a & ((1 << k) - 1)`.
pub bit_and_mask : (k a : ℕ) → bit_and a (2 ^ k - 1) ≡ a % 2 ^ k
bit_and_mask k a =
    let one = one-le-pow k 2 in
    let low : a % 2 ^ k < 2 ^ k = ground arith in
    let ones : join k 0 (2 ^ k - 1) ≡ 2 ^ k - 1 = omega arith in
    ap₂ bit_and (sym (join_parts k a)) (sym ones)
    ∙ bit_and-join k (a / 2 ^ k) (a % 2 ^ k) 0 (2 ^ k - 1) low (omega arith)
    ∙ rw (bit_and-zero, bit_and-ones k (a % 2 ^ k) low) (omega arith)

-- `(q << k) | r`, where `r` has at most `k` bits.
pub bit_or_fields : (k q r : ℕ) → r < 2 ^ k → bit_or (q * 2 ^ k) r ≡ q * 2 ^ k + r
bit_or_fields k q r h =
    let one = one-le-pow k 2 in
    let high : join k q 0 ≡ q * 2 ^ k = omega arith in
    let low : join k 0 r ≡ r = omega arith in
    ap₂ bit_or (sym high) (sym low)
    ∙ bit_or-join k q 0 0 r (omega arith) h
    ∙ rw (bit_or-zero, zero-bit_or)

-- `r | (q << k)`, the order in which the readers of the line table gather a value.
pub bit_or_fields_above : (k q r : ℕ) → r < 2 ^ k → bit_or r (q * 2 ^ k) ≡ r + q * 2 ^ k
bit_or_fields_above k q r h =
    let one = one-le-pow k 2 in
    let high : join k q 0 ≡ q * 2 ^ k = omega arith in
    let low : join k 0 r ≡ r = omega arith in
    ap₂ bit_or (sym low) (sym high)
    ∙ bit_or-join k 0 r q 0 h (omega arith)
    ∙ rw (bit_or-zero, zero-bit_or) (omega arith)

-- `a & (m << k)`: the bits under a mask that ends `k` bits up.
pub bit_and_high : (k a m : ℕ) → bit_and a (m * 2 ^ k) ≡ bit_and (a / 2 ^ k) m * 2 ^ k
bit_and_high k a m =
    let one = one-le-pow k 2 in
    let low : a % 2 ^ k < 2 ^ k = ground arith in
    let high : join k m 0 ≡ m * 2 ^ k = omega arith in
    ap₂ bit_and (sym (join_parts k a)) (sym high)
    ∙ bit_and-join k (a / 2 ^ k) (a % 2 ^ k) m 0 low (omega arith)
    ∙ rw bit_and-zero (omega arith)

-- Every value below `n` passes the test.
unfoldable pub passes_below : (ℕ → Bool) → ℕ → Bool
passes_below test zero = true
passes_below test (suc n) = test n && passes_below test n

pub passes_below-lt :
    (test : ℕ → Bool) (n : ℕ) → passes_below test n ≡ true → (x : ℕ) → x < n → test x ≡ true
unfolding passes_below
passes_below-lt test zero all x h = elim h [ ]
passes_below-lt test (suc n) all x h =
    ground (arith, λ (p : passes_below test n ≡ true) (l : x < n). passes_below-lt test n p x l)
