-- ===== src/Variables.antt =====
-- The variables of the program in src/debugger.c: their types, addresses, members and elements. What `dwarfdump`
-- prints, and `strtoul`, are the parameter `Outside`.
use macos_c_debugger_arm.Debugger.State.{Cdbg}
use macos_c_debugger_arm.Kernel.{Kernel}
use macos_c_debugger_arm.Lineno.{same_text}
use macos_c_debugger_arm.Prelude.{
  ℕ, ◌+◌, ◌*◌, ◌^◌, ◌&&◌, not, Evaluated, value, fails, undefined, ◌>>=◌, or_fail, Bool, true,
  false, ◌||◌, Option, none, some, List, [], ◌∷◌, ◌==◌, leb, if◌then◌else◌, u64,
}
use macos_c_debugger_arm.Regs.{regs_fp}
use macos_c_debugger_arm.Syms.{Syms, lookup_name, syms_runtime_addr}
use macos_c_debugger_arm.Types.{
  is_pointer_type, is_signed_type, type_scalar_size, type_pointee_size, type_is_scalar,
  parse_array_type, pointer_pointee_type,
}
use macos_c_debugger_arm.Values.{read_scalar_value}

pub data VarBase : Type 0 where
  fb sp x29 : VarBase

pub record VarInfo : Type 0 where
  pub type : List ℕ
  pub element_type : List ℕ
  pub size : ℕ
  pub element_size : ℕ
  pub pointee_size : ℕ
  pub array_count : ℕ
  pub is_pointer : Bool
  pub is_signed : Bool
  pub is_array : Bool

pub record StructMember : Type 0 where
  pub name : List ℕ
  pub type : List ℕ
  pub offset : ℕ
  pub size : ℕ
  pub is_signed : Bool

-- A local variable with its base and its offset, an `int64_t` as the word that holds it; and a struct with its
-- members and its size.
pub record Outside : Type 0 where
  pub find_local_var : List ℕ → Option (VarInfo × VarBase × ℕ)
  pub dwarf_lookup_struct : List ℕ → Option (List StructMember × ℕ)
  pub strtoul : List ℕ → Option (ℕ × List ℕ)

-- `(int64_t)base + offset`, of words: a sum that an `int64_t` cannot hold is undefined.
unfoldable pub signed_sum : ℕ → ℕ → Evaluated ℕ
signed_sum base offset =
    let sum = u64 (base + offset) in
    let base_negative = leb (2 ^ 63) base in
    let offset_negative = leb (2 ^ 63) offset in
    let sum_negative = leb (2 ^ 63) sum in
    if (base_negative && (offset_negative && not sum_negative))
      || (not base_negative && (not offset_negative && sum_negative))
    then undefined
    else value sum

module _ (o : Outside) where
  unfoldable pub type_element_size : List ℕ → ℕ
  unfolding type_is_scalar type_scalar_size
  type_element_size [] = 0
  type_element_size (c ∷ cs) =
      if type_is_scalar (c ∷ cs)
      then type_scalar_size (c ∷ cs)
      else elim (o.dwarf_lookup_struct (c ∷ cs)) [
        | none ↦ 8
        | some (members, byte_size) ↦ if byte_size == 0 then 8 else byte_size
      ]

  -- Of a variable whose type is known, the rest.
  unfoldable pub complete_var_type : List ℕ → VarInfo
  unfolding type_element_size parse_array_type type_scalar_size type_pointee_size is_pointer_type
  complete_var_type type = elim (parse_array_type o.strtoul type) [
    | some (element_type, count) ↦
        let element_size = type_element_size element_type in
        record {
          type = type;
          element_type = element_type;
          size = u64 (element_size * count);
          element_size = element_size;
          pointee_size = element_size;
          array_count = count;
          is_pointer = is_pointer_type type;
          is_signed = is_signed_type type;
          is_array = true;
        }
    | none ↦
        let pointee = type_pointee_size type in
        record {
          type = type;
          element_type = [];
          size = type_scalar_size type;
          element_size = 0;
          pointee_size = if pointee == 0 then 8 else pointee;
          array_count = 0;
          is_pointer = is_pointer_type type;
          is_signed = is_signed_type type;
          is_array = false;
        }
  ]

  unfoldable pub find_member : List ℕ → List StructMember → Option StructMember
  unfolding same_text
  find_member name [] = none
  find_member name (m ∷ ms) = if same_text m.name name then some m else find_member name ms

  unfoldable pub lookup_struct_member : List ℕ → List ℕ → Option StructMember
  unfolding find_member
  lookup_struct_member struct_type member_name = elim (o.dwarf_lookup_struct struct_type) [
    | none ↦ none
    | some (members, byte_size) ↦ find_member member_name members
  ]

  abbrev pub var_base_addr : Cdbg → VarBase → ℕ
  var_base_addr d sp = d.regs.native.sp
  var_base_addr d x29 = regs_fp d.regs
  var_base_addr d fb = regs_fp d.regs

  -- "unsigned long", the type that a symbol is given.
  abbrev pub symbol_type : List ℕ
  symbol_type = 117 ∷ 110 ∷ 115 ∷ 105 ∷ 103 ∷ 110 ∷ 101 ∷ 100 ∷ 32 ∷ 108 ∷ 111 ∷ 110 ∷ 103 ∷ []

  unfoldable pub resolve_variable_address : Cdbg → Syms → List ℕ → Evaluated (VarInfo × ℕ)
  unfolding complete_var_type lookup_name signed_sum
  resolve_variable_address d syms name = elim (o.find_local_var name) [
    | some (var, base, offset) ↦
        signed_sum (var_base_addr d base) offset >>= λ addr. value (var, addr)
    | none ↦ elim (lookup_name syms name) [
      | none ↦ fails
      | some sym ↦
          if sym.address == 0 || sym.type == 85 || sym.type == 117
          then fails
          else value (complete_var_type symbol_type, syms_runtime_addr syms sym.address)
    ]
  ]

  module _ (k : Kernel) where
    -- The address, the size and the type of the element.
    unfoldable pub resolve_subscript_element :
        Cdbg → Syms → k.World → List ℕ → ℕ → Evaluated (ℕ × ℕ × List ℕ)
    unfolding resolve_variable_address pointer_pointee_type type_element_size read_scalar_value
    resolve_subscript_element d syms w name index =
        resolve_variable_address d syms name >>= λ (var, addr).
        if var.is_array
        then (if leb var.array_count index
            then fails
            else value (u64 (addr + index * var.element_size), var.element_size, var.element_type))
        else if var.is_pointer
        then (let type = pointer_pointee_type var.type in
            let size = type_element_size type in
            or_fail (read_scalar_value k w d.pid addr 8) >>= λ ptr.
            value (u64 (ptr + index * size), size, type))
        else fails
