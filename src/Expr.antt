-- ===== src/Expr.antt =====
-- src/expr_eval.c: the values of expressions. The parser is generated code, so an expression is its tree, as
-- include/expr_ast.h has it. A `double` is its 64 bits.
pub mod Access
mod Tests
use macos_c_debugger_arm.Debugger.State.{Cdbg}
use macos_c_debugger_arm.Kernel.{Kernel}
use macos_c_debugger_arm.Prelude.{
  Evaluated, value, fails, undefined, ◌>>=◌, or_fail, ℕ, ◌+◌, ◌*◌, ◌/◌, ◌%◌, ◌^◌, ◌-◌, Bool, true,
  false, not, ◌&&◌, ◌||◌, Option, none, some, List, [], ◌∷◌, ◌==◌, ltb, leb, if◌then◌else◌, bit_and,
  bit_or, bit_xor, u64, sub64,
}
use macos_c_debugger_arm.Syms.{Syms}
use macos_c_debugger_arm.Types.{
  is_pointer_type, is_signed_type, pointer_pointee_type, strip_pointer_star, make_pointer_type,
  type_is_scalar,
}
use macos_c_debugger_arm.Values.{read_scalar_value}
use macos_c_debugger_arm.Variables.{
  Outside, type_element_size, lookup_struct_member, resolve_variable_address,
  resolve_subscript_element,
}

pub data Op : Type 0 where
  add sub mul div modulo shl shr lt gt le ge eq ne band bxor bor land lor pos neg lnot bnot : Op

pub data Expr : Type 0 where
  num : ℕ → ℕ → Bool → Expr
  ident : List ℕ → Expr
  unary : Op → Expr → Expr
  binary : Op → Expr → Expr → Expr
  member arrow : Expr → List ℕ → Expr
  index : Expr → Expr → Expr
  addr deref : Expr → Expr

pub record Lvalue : Type 0 where
  pub addr : ℕ
  pub size : ℕ
  pub is_signed : Bool
  pub type : List ℕ

pub record ExprResult : Type 0 where
  pub value : ℕ
  pub fvalue : ℕ
  pub is_float : Bool
  pub is_address : Bool
  pub type : List ℕ

-- A result of which only the value and the type are set.
abbrev pub plain : ℕ → List ℕ → ExprResult
plain v type = record { value = v; fvalue = 0; is_float = false; is_address = false; type = type }

abbrev bit : Bool → ℕ
bit true = 1
bit false = 0

-- A shift by 64 or more is undefined.
unfoldable pub combine_binary : ℕ → ℕ → Op → Evaluated ℕ
combine_binary l r add = value (u64 (l + r))
combine_binary l r sub = value (sub64 l r)
combine_binary l r mul = value (u64 (l * r))
combine_binary l r div = if r == 0 then fails else value (l / r)
combine_binary l r modulo = if r == 0 then fails else value (l % r)
combine_binary l r shl = if leb 64 r then undefined else value (u64 (l * 2 ^ r))
combine_binary l r shr = if leb 64 r then undefined else value (l / 2 ^ r)
combine_binary l r lt = value (bit (ltb l r))
combine_binary l r gt = value (bit (ltb r l))
combine_binary l r le = value (bit (leb l r))
combine_binary l r ge = value (bit (leb r l))
combine_binary l r eq = value (bit (l == r))
combine_binary l r ne = value (bit (not (l == r)))
combine_binary l r band = value (bit_and l r)
combine_binary l r bxor = value (bit_xor l r)
combine_binary l r bor = value (bit_or l r)
combine_binary l r land = value (bit (not (l == 0) && not (r == 0)))
combine_binary l r lor = value (bit (not (l == 0) || not (r == 0)))
combine_binary l r pos = fails
combine_binary l r neg = fails
combine_binary l r lnot = fails
combine_binary l r bnot = fails

-- The sign of a `double` is its highest bit; the least `int64_t` has no negative.
unfoldable pub apply_unary : Op → ExprResult → Evaluated ExprResult
apply_unary pos inner = value inner
apply_unary neg inner =
    let flipped = bit_xor inner.fvalue (2 ^ 63) in
    if inner.is_float
    then value (record {
      value = flipped;
      fvalue = flipped;
      is_float = true;
      is_address = false;
      type = [];
    })
    else if inner.value == 2 ^ 63
    then undefined
    else value (plain (sub64 0 inner.value) [])
apply_unary lnot inner = value (plain (bit (inner.value == 0)) [])
apply_unary bnot inner = value (plain (2 ^ 64 - 1 - inner.value) [])
apply_unary op inner = fails

-- What eval_as_pointer, eval_lvalue and eval_value return for one node; and what eval_lvalue returns where it is the
-- base of a subscript. The three functions call each other for the node and for its parts: here each node has its
-- results made of those of its parts.
pub record Views : Type 0 where
  pub pointer : Evaluated (ℕ × List ℕ)
  pub lvalue : Evaluated Lvalue
  pub result : Evaluated ExprResult
  pub element : ℕ → Evaluated Lvalue

module _ (o : Outside) (k : Kernel) (d : Cdbg) (syms : Syms) (w : k.World) where
  abbrev read_value : ℕ → ℕ → Evaluated ℕ
  read_value address size = or_fail (read_scalar_value k w d.pid address size)

  -- INDEX of a base that is not a name.
  unfoldable pub element_behind : Evaluated (ℕ × List ℕ) → ℕ → Evaluated Lvalue
  unfolding type_element_size
  element_behind pointer i = pointer >>= λ (ptr, type).
      let size : ℕ = elim type [ [] ↦ 8 | c ∷ cs ↦ type_element_size o (c ∷ cs) ] in
      value (record {
        addr = u64 (ptr + i * size);
        size = size;
        is_signed = is_signed_type type;
        type = type;
      })

  -- Of a node that is read through its address.
  unfoldable pub of_lvalue : Evaluated Lvalue → Views
  unfolding element_behind is_pointer_type strip_pointer_star
  of_lvalue lvalue =
      let pointer = lvalue >>= λ lv.
      if is_pointer_type lv.type
      then (read_value lv.addr 8 >>= λ ptr. value (ptr, strip_pointer_star lv.type))
      else fails in
      record {
        pointer = pointer;
        lvalue = lvalue;
        result = lvalue >>= λ lv. read_value lv.addr lv.size >>= λ v. value (plain v lv.type);
        element = element_behind pointer;
      }

  -- Of any other node: its value is an address of which the type is not known.
  unfoldable pub of_result : Evaluated ExprResult → Views
  unfolding element_behind
  of_result result =
      let pointer = result >>= λ r. value (r.value, []) in
      record {
        pointer = pointer;
        lvalue = fails;
        result = result;
        element = element_behind pointer;
      }

  unfoldable pub of_ident : List ℕ → Views
  unfolding resolve_variable_address resolve_subscript_element pointer_pointee_type
  of_ident name =
      let var = resolve_variable_address o d syms name in
      record {
        pointer = var >>= λ (v, address).
            if v.is_pointer
            then (read_value address 8 >>= λ ptr. value (ptr, pointer_pointee_type v.type))
            else fails;
        lvalue = var >>= λ (v, address).
            if v.is_array
            then fails
            else value
                (record { addr = address; size = v.size; is_signed = v.is_signed; type = v.type });
        result = var >>= λ (v, address). read_value address v.size >>= λ x. value (plain x v.type);
        element = λ i. resolve_subscript_element o k d syms w name i >>= λ (address, size, type).
            value (record {
              addr = address;
              size = size;
              is_signed = is_signed_type type;
              type = type;
            });
      }

  unfoldable pub deref_lvalue : ℕ × List ℕ → Lvalue
  unfolding type_element_size
  deref_lvalue (ptr, []) = record { addr = ptr; size = 8; is_signed = false; type = [] }
  deref_lvalue (ptr, c ∷ cs) = record {
    addr = ptr;
    size = type_element_size o (c ∷ cs);
    is_signed = is_signed_type (c ∷ cs);
    type = c ∷ cs;
  }

  unfoldable pub member_lvalue : List ℕ → ℕ → List ℕ → Evaluated Lvalue
  unfolding lookup_struct_member
  member_lvalue name base type = or_fail (lookup_struct_member o type name) >>= λ m. value (record {
    addr = u64 (base + m.offset);
    size = m.size;
    is_signed = m.is_signed;
    type = elim m.type [ [] ↦ type | c ∷ cs ↦ c ∷ cs ];
  })

  unfoldable pub views : Expr → Views
  unfolding of_lvalue of_result of_ident deref_lvalue member_lvalue apply_unary combine_binary
      make_pointer_type
  views (num number fvalue is_float) = of_result (
      value (record {
        value = number;
        fvalue = fvalue;
        is_float = is_float;
        is_address = false;
        type = [];
      }))
  views (ident name) = of_ident name
  views (unary op e) = of_result ((views e).result >>= apply_unary op)
  views (binary op l r) = of_result (
      (views l).result >>= λ x.
      (views r).result >>= λ y. combine_binary x.value y.value op >>= λ v. value (plain v []))
  views (member e name) = of_lvalue ((views e).lvalue >>= λ lv. member_lvalue name lv.addr lv.type)
  views (arrow e name) =
      of_lvalue ((views e).pointer >>= λ (ptr, type). member_lvalue name ptr type)
  views (index e i) = of_lvalue ((views i).result >>= λ x. (views e).element x.value)
  views (addr e) = of_result (
      (views e).lvalue >>= λ lv.
      value (record (plain lv.addr (make_pointer_type lv.type)) { is_address = true }))
  views (deref e) = of_lvalue ((views e).pointer >>= λ p. value (deref_lvalue p))

  abbrev pub eval_as_pointer : Expr → Evaluated (ℕ × List ℕ)
  eval_as_pointer e = (views e).pointer

  abbrev pub eval_lvalue : Expr → Evaluated Lvalue
  eval_lvalue e = (views e).lvalue

  abbrev pub eval_value : Expr → Evaluated ExprResult
  eval_value e = (views e).result

  -- Of the root of an lvalue that is used whole, the text after it has been parsed.
  unfoldable pub expr_eval_lvalue : Expr → Evaluated (Lvalue × Bool)
  unfolding views type_is_scalar
  expr_eval_lvalue (addr e) = fails
  expr_eval_lvalue e = eval_lvalue e >>= λ lv.
      value (lv, is_terminal e && (not (is_empty lv.type) && not (type_is_scalar lv.type)))
    where
      is_terminal : Expr → Bool
      is_terminal (ident name) = true
      is_terminal (deref b) = true
      is_terminal (index b i) = true
      is_terminal b = false

      is_empty : List ℕ → Bool
      is_empty [] = true
      is_empty (c ∷ cs) = false
