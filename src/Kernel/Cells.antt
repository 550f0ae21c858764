-- ===== src/Kernel/Cells.antt =====
-- The memory of a task as a function from addresses to bytes: what a read returns and what a write
-- leaves. It is the view in which the documented behaviour of the Mach and ptrace calls is stated.
use macos_c_debugger_arm.Prelude.{
  ℕ, zero, suc, ◌+◌, ◌≤◌, ◌<◌, ◌≡◌, refl, ap₂, ◌⊎◌, inl, List, [], ◌∷◌, arith, ◌==◌, ◌∙◌,
  if◌then◌else◌, length, get_or,
}

abbrev pub Cells : Type 0
Cells = ℕ → ℕ

-- The `n` bytes from `a`.
unfoldable pub peek : Cells → ℕ → ℕ → List ℕ
peek m a zero = []
peek m a (suc n) = m a ∷ peek m (a + 1) n

-- The memory after the bytes have been put from `a` on.
unfoldable pub poke : Cells → ℕ → List ℕ → Cells
poke m a [] = m
poke m a (b ∷ bs) = poke (λ c. if c == a then b else m c) (a + 1) bs

pub poke_outside :
    (m : Cells) (a : ℕ) (bs : List ℕ) (c : ℕ) → (c < a) ⊎ (a + length bs ≤ c) → poke m a bs c ≡ m c
unfolding poke
poke_outside m a [] c h = refl
poke_outside m a (b ∷ bs) c h =
    poke_outside (λ d. if d == a then b else m d) (a + 1) bs c (beyond h) ∙ ground arith
  where
    beyond : (c < a) ⊎ (a + suc (length bs) ≤ c) → (c < a + 1) ⊎ (a + 1 + length bs ≤ c)
    beyond out = ground arith

pub poke_inside :
    (m : Cells) (a : ℕ) (bs : List ℕ) (i : ℕ) (d : ℕ)
    → i < length bs
    → poke m a bs (a + i) ≡ get_or bs i d
unfolding poke
poke_inside m a [] i d h = elim h [ ]
poke_inside m a (b ∷ bs) zero d h =
    let here : a + 0 ≡ a = omega arith in
    rw here (
      poke_outside (λ c. if c == a then b else m c) (a + 1) bs a (inl (omega arith)) ∙ ground arith)
poke_inside m a (b ∷ bs) (suc i) d h =
    let there : a + suc i ≡ a + 1 + i = omega arith in
    rw there (poke_inside (λ c. if c == a then b else m c) (a + 1) bs i d (omega arith))

pub length-peek : (m : Cells) (a n : ℕ) → length (peek m a n) ≡ n
unfolding peek
length-peek m a zero = refl
length-peek m a (suc n) = omega (arith, length-peek m (a + 1) n)

-- A read shows only the bytes of its range.
pub peek_same :
    (m k : Cells) (a n : ℕ) → ((c : ℕ) → a ≤ c → c < a + n → m c ≡ k c) → peek m a n ≡ peek k a n
unfolding peek
peek_same m k a zero h = refl
peek_same m k a (suc n) h =
    ap₂ ◌∷◌ (h a (omega arith) (omega arith))
      (peek_same m k (a + 1) n (λ c lo hi. h c (omega arith) (omega arith)))

-- What was written is read back.
pub peek-poke : (m : Cells) (a : ℕ) (bs : List ℕ) → peek (poke m a bs) a (length bs) ≡ bs
unfolding peek poke
peek-poke m a [] = refl
peek-poke m a (b ∷ bs) =
    ap₂ ◌∷◌
      (poke_outside (λ c. if c == a then b else m c) (a + 1) bs a (inl (omega arith))
        ∙ ground arith)
      (peek-poke (λ c. if c == a then b else m c) (a + 1) bs)

-- Writing back what was read restores every byte.
pub poke-peek :
    (m k : Cells) (a n : ℕ)
    → ((c : ℕ) → (c < a) ⊎ (a + n ≤ c) → k c ≡ m c)
    → (c : ℕ) → poke k a (peek m a n) c ≡ m c
unfolding peek poke
poke-peek m k a zero h c = ground (arith, h c)
poke-peek m k a (suc n) h c = poke-peek m (λ d. if d == a then m a else k d) (a + 1) n restored c
  where
    restored : (d : ℕ) → (d < a + 1) ⊎ (a + 1 + n ≤ d) → (if d == a then m a else k d) ≡ m d
    restored d out = ground (arith, h d)

-- A write hides what the memory held in its range.
pub poke_shadow :
    (m k : Cells) (a : ℕ) (bs : List ℕ)
    → ((c : ℕ) → (c < a) ⊎ (a + length bs ≤ c) → k c ≡ m c)
    → (c : ℕ) → poke k a bs c ≡ poke m a bs c
unfolding poke
poke_shadow m k a [] h c = h c (ground arith)
poke_shadow m k a (b ∷ bs) h c =
    poke_shadow (λ d. if d == a then b else m d) (λ d. if d == a then b else k d) (a + 1) bs agree c
  where
    agree :
        (d : ℕ)
        → (d < a + 1) ⊎ (a + 1 + length bs ≤ d)
        → (if d == a then b else k d) ≡ (if d == a then b else m d)
    agree d out = ground (arith, h d)
