-- ===== src/Dwarf/Leaves.antt =====
-- What the readers of src/lineno.c leave of the bytes at the cursor.
use macos_c_debugger_arm.Dwarf.{read_u8, read_u16, uleb_loop, sleb_loop}
use macos_c_debugger_arm.Dwarf.Program.{drop}
use macos_c_debugger_arm.Prelude.{
  ℕ, zero, suc, ◌+◌, ◌≤◌, List, [], ◌∷◌, ◌==◌, length, arith, by_if, bit_and,
}

-- Readers leave a part of what they read: a predicate that goes over to the tail of a list goes over to it.
module _ (P : List ℕ → Type 0) (tail : (b : ℕ) (bs : List ℕ) → P (b ∷ bs) → P bs) where
  abbrev pub Leaves {ℓ} : {A : Type ℓ} → A × List ℕ → Type 0
  Leaves r = P r.1

  pub read_u8-Leaves : (bs : List ℕ) → P bs → Leaves (read_u8 bs)
  unfolding read_u8
  read_u8-Leaves [] h = h
  read_u8-Leaves (b ∷ bs) h = tail b bs h

  pub read_u16-Leaves : (bs : List ℕ) → P bs → Leaves (read_u16 bs)
  unfolding read_u16
  read_u16-Leaves [] h = h
  read_u16-Leaves (b ∷ []) h = h
  read_u16-Leaves (b ∷ c ∷ bs) h = tail c bs (tail b (c ∷ bs) h)

  pub uleb_loop-Leaves :
      (k shift value : ℕ) (bs : List ℕ) → P bs → Leaves (uleb_loop k shift value bs)
  unfolding uleb_loop
  uleb_loop-Leaves zero shift value bs h = h
  uleb_loop-Leaves (suc k) shift value bs h =
      let rest = read_u8-Leaves bs h in
      by_if Leaves (bit_and (read_u8 bs).0 0x80 == 0) rest
        (uleb_loop-Leaves k (shift + 7) _ (read_u8 bs).1 rest)

  pub sleb_loop-Leaves :
      (k last shift value : ℕ) (bs : List ℕ) → P bs → Leaves (sleb_loop k last shift value bs)
  unfolding sleb_loop
  sleb_loop-Leaves zero last shift value bs h = h
  sleb_loop-Leaves (suc k) last shift value bs h =
      let rest = read_u8-Leaves bs h in
      by_if Leaves (bit_and (read_u8 bs).0 0x80 == 0) rest
        (sleb_loop-Leaves k (read_u8 bs).0 (shift + 7) _ (read_u8 bs).1 rest)

  pub drop-Leaves : (k : ℕ) (bs : List ℕ) → P bs → P (drop k bs)
  unfolding drop
  drop-Leaves zero bs h = h
  drop-Leaves (suc k) [] h = h
  drop-Leaves (suc k) (b ∷ bs) h = drop-Leaves k bs (tail b bs h)

module _ (n : ℕ) where
  shorter : (b : ℕ) (bs : List ℕ) → length (b ∷ bs) ≤ n → length bs ≤ n
  shorter b bs h = omega (arith, h)

  pub uleb_loop-Within :
      (k shift value : ℕ) (bs : List ℕ) → length bs ≤ n → length (uleb_loop k shift value bs).1 ≤ n
  uleb_loop-Within k shift value bs h =
      uleb_loop-Leaves (λ bs. length bs ≤ n) shorter k shift value bs h

  pub length-drop : (k : ℕ) (bs : List ℕ) → length bs ≤ n → length (drop k bs) ≤ n
  length-drop k bs h = drop-Leaves (λ bs. length bs ≤ n) shorter k bs h
