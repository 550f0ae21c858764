-- ===== src/Regs/Names.antt =====
-- The registers by name in src/regs.c: set_gpr_field, set_fp_field and cdbg_regs_get_by_name, each with its own
-- comparisons. `strtol` reads a decimal number, none where it is negative, and says what follows it.
use mathlib.Core.Option
use macos_c_debugger_arm.Kernel.{Kernel}
use macos_c_debugger_arm.Lineno.{same_text}
use macos_c_debugger_arm.Prelude.{
  ℕ, Bool, false, ◌||◌, Option, none, some, List, [], ◌∷◌, ◌==◌, leb, if◌then◌else◌, get_or, set,
  u32, u64,
}
use macos_c_debugger_arm.Regs.{Regs, regs_set}
use macos_c_debugger_arm.Threads.{resolve_port}

abbrev pub pc_text : List ℕ
pc_text = 112 ∷ 99 ∷ []

abbrev pub sp_text : List ℕ
sp_text = 115 ∷ 112 ∷ []

abbrev pub fp_text : List ℕ
fp_text = 102 ∷ 112 ∷ []

abbrev pub x29_text : List ℕ
x29_text = 120 ∷ 50 ∷ 57 ∷ []

abbrev pub lr_text : List ℕ
lr_text = 108 ∷ 114 ∷ []

abbrev pub x30_text : List ℕ
x30_text = 120 ∷ 51 ∷ 48 ∷ []

abbrev pub cpsr_text : List ℕ
cpsr_text = 99 ∷ 112 ∷ 115 ∷ 114 ∷ []

abbrev pub fpsr_text : List ℕ
fpsr_text = 102 ∷ 112 ∷ 115 ∷ 114 ∷ []

abbrev pub fpcr_text : List ℕ
fpcr_text = 102 ∷ 112 ∷ 99 ∷ 114 ∷ []

-- `name[0]`, where the text ends with a 0.
unfoldable pub first_char : List ℕ → ℕ
first_char [] = 0
first_char (c ∷ cs) = c

-- `name + 1`, of a name that is not empty.
unfoldable pub behind_first : List ℕ → List ℕ
behind_first [] = []
behind_first (c ∷ cs) = cs

-- `idx` in range, and nothing behind it.
unfoldable pub in_range : ℕ → Option ℕ → List ℕ → Option ℕ
in_range most none rest = none
in_range most (some idx) [] = if leb idx most then some idx else none
in_range most (some idx) (c ∷ cs) = none

module _ (strtol : List ℕ → Option ℕ × List ℕ) where
  unfoldable pub index_behind : ℕ → List ℕ → Option ℕ
  unfolding in_range behind_first
  index_behind most name = let (idx, rest) = strtol (behind_first name) in in_range most idx rest

  -- The registers with the field set, or -1.
  unfoldable pub set_gpr_field : Regs → List ℕ → ℕ → Option Regs
  unfolding same_text index_behind first_char
  set_gpr_field r name value =
      if same_text name pc_text
      then some (record r { native = record (r.native) { pc = value } })
      else if same_text name sp_text
      then some (record r { native = record (r.native) { sp = value } })
      else if same_text name fp_text || same_text name x29_text
      then some (record r { native = record (r.native) { fp = value } })
      else if same_text name lr_text || same_text name x30_text
      then some (record r { native = record (r.native) { lr = value } })
      else if same_text name cpsr_text
      then some (record r { native = record (r.native) { cpsr = u32 value } })
      else if first_char name == 120
      then Option.map
          (λ idx. record r { native = record (r.native) { x = set r.native.x idx value } })
          (index_behind 28 name)
      else none

  unfoldable pub set_fp_field : Regs → List ℕ → ℕ → Option Regs
  unfolding same_text index_behind first_char
  set_fp_field r name value =
      if same_text name fpsr_text
      then some (record r { neon = record (r.neon) { fpsr = u32 value } })
      else if same_text name fpcr_text
      then some (record r { neon = record (r.neon) { fpcr = u32 value } })
      else if first_char name == 118
      then Option.map (λ idx. record r { neon = record (r.neon) { v = set r.neon.v idx value } })
          (index_behind 31 name)
      else none

  -- A vector register gives its lower half.
  unfoldable pub regs_get_by_name : Regs → List ℕ → Option ℕ
  unfolding same_text index_behind first_char
  regs_get_by_name r name =
      if same_text name pc_text
      then some r.native.pc
      else if same_text name sp_text
      then some r.native.sp
      else if same_text name fp_text || same_text name x29_text
      then some r.native.fp
      else if same_text name lr_text || same_text name x30_text
      then some r.native.lr
      else if same_text name cpsr_text
      then some r.native.cpsr
      else if same_text name fpsr_text
      then some r.neon.fpsr
      else if same_text name fpcr_text
      then some r.neon.fpcr
      else if first_char name == 120
      then Option.map (λ idx. get_or r.native.x idx 0) (index_behind 28 name)
      else if first_char name == 118
      then Option.map (λ idx. u64 (get_or r.neon.v idx 0)) (index_behind 31 name)
      else none

  module _ (k : Kernel) where
    unfoldable pub regs_set_fp : k.World → ℕ → ℕ → Regs → k.World × Bool
    regs_set_fp w pid tid regs = elim (resolve_port k w pid tid) [
      | none ↦ (w, false)
      | some thread ↦ k.set_neon_state w thread regs.neon
    ]

    -- The registers are changed also where they cannot be stored.
    unfoldable pub regs_set_by_name : k.World → ℕ → ℕ → Regs → List ℕ → ℕ → Regs × k.World × Bool
    unfolding set_gpr_field set_fp_field regs_set_fp
    regs_set_by_name w pid tid r name value = elim (set_gpr_field r name value) [
      | some r' ↦ let (w', stored) = regs_set k w pid tid r' in (r', w', stored)
      | none ↦ elim (set_fp_field r name value) [
        | some r' ↦ let (w', stored) = regs_set_fp w pid tid r' in (r', w', stored)
        | none ↦ (r, w, false)
      ]
    ]
