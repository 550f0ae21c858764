-- ===== src/Expr/Access.antt =====
-- The operators of src/expr_eval.c that go through a pointer, against each other.
use macos_c_debugger_arm.Debugger.State.{Cdbg}
use macos_c_debugger_arm.Expr.{
  Expr, member, arrow, addr, deref, Lvalue, ExprResult, plain, of_lvalue, of_result, deref_lvalue,
  member_lvalue, views, eval_as_pointer, eval_lvalue, eval_value,
}
use macos_c_debugger_arm.Kernel.{Kernel}
use macos_c_debugger_arm.Prelude.{
  Evaluated, value, fails, undefined, ◌>>=◌, ℕ, ◌≡◌, refl, ap, List, [], ◌∷◌, true, false,
}
use macos_c_debugger_arm.Syms.{Syms}
use macos_c_debugger_arm.Types.{make_pointer_type}
use macos_c_debugger_arm.Variables.{Outside}

module _ (o : Outside) (k : Kernel) (d : Cdbg) (syms : Syms) (w : k.World) where
  member_behind :
      (name : List ℕ) (p : Evaluated (ℕ × List ℕ))
      → (p >>= λ (ptr, type). member_lvalue o k d syms w name ptr type) ≡ (
          (p >>= λ q. value (deref_lvalue o k d syms w q)) >>= λ lv.
          member_lvalue o k d syms w name lv.addr lv.type)
  unfolding deref_lvalue
  member_behind name (value (ptr, [])) = refl
  member_behind name (value (ptr, c ∷ cs)) = refl
  member_behind name fails = refl
  member_behind name undefined = refl

  -- An arrow evaluates as a member of the dereferenced expression, as a pointer, as an lvalue, as a value
  -- and as the base of a subscript.
  views-arrow :
      (e : Expr) (name : List ℕ)
      → views o k d syms w (arrow e name) ≡ views o k d syms w (member (deref e) name)
  unfolding views of_lvalue
  views-arrow e name =
      ap (of_lvalue o k d syms w) (member_behind name (views o k d syms w e).pointer)

  -- The lvalue of `*&e`, and the value of `&*e`.
  abbrev pub untyped : Lvalue → Lvalue
  untyped lv = record { addr = lv.addr; size = 8; is_signed = false; type = [] }

  abbrev pub address_of : ℕ × List ℕ → ExprResult
  address_of (ptr, type) = record (plain ptr (make_pointer_type type)) { is_address = true }

  -- A star before an ampersand leads to the address of the expression, but with a size of 8 and no type;
  -- an ampersand before a star has the value of the pointer, with the type of a pointer to what it points
  -- to.
  pub views-addr :
      (e : Expr)
      → (eval_lvalue o k d syms w (deref (addr e))
          ≡ (eval_lvalue o k d syms w e >>= λ lv. value (untyped lv)))
        × (eval_value o k d syms w (addr (deref e))
            ≡ (eval_as_pointer o k d syms w e >>= λ p. value (address_of p)))
  unfolding views of_lvalue of_result deref_lvalue
  views-addr e = (through (views o k d syms w e).lvalue, back (views o k d syms w e).pointer)
    where
      through :
          (lv : Evaluated Lvalue)
          → (((lv >>= λ l. value (address_of (l.addr, l.type))) >>= λ (r : ExprResult).
                value (r.value, []))
              >>= λ p. value (deref_lvalue o k d syms w p))
            ≡ (lv >>= λ l. value (untyped l))
      through (value l) = refl
      through fails = refl
      through undefined = refl

      back :
          (p : Evaluated (ℕ × List ℕ))
          → ((p >>= λ q. value (deref_lvalue o k d syms w q)) >>= λ lv.
              value (address_of (lv.addr, lv.type)))
            ≡ (p >>= λ q. value (address_of q))
      back (value (ptr, [])) = refl
      back (value (ptr, c ∷ cs)) = refl
      back fails = refl
      back undefined = refl
