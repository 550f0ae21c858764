-- ===== src/Regs/SetGet.antt =====
-- A register of src/regs.c that is set by name and read again by the same name, and which name is that of which
-- register.
use mathlib.Core.Option
use macos_c_debugger_arm.Regs.Names.{
  cpsr_text, fp_text, fpcr_text, fpsr_text, lr_text, pc_text, sp_text, x29_text, x30_text,
  first_char, behind_first, in_range, index_behind, set_gpr_field, set_fp_field, regs_get_by_name,
  regs_set_by_name,
}
use macos_c_debugger_arm.Kernel.{Kernel}
use macos_c_debugger_arm.Lineno.{same_text}
use macos_c_debugger_arm.Prelude.{
  ℕ, ◌^◌, ◌<◌, ◌≡◌, ◌∙◌, refl, ap, ◌||◌, Option, none, some, List, [], ◌∷◌, ◌==◌, true,
  get_or-set_self, length, u32, u64, arith, by_if, ◌≤◌, get_or, set, if◌then◌else◌,
}
use macos_c_debugger_arm.Regs.{Regs}

pub data RegName : Type 0 where
  pc sp fp lr cpsr fpsr fpcr : RegName
  x v : ℕ → RegName

-- What is read of a register: of a vector register, its lower half.
unfoldable get_reg : Regs → RegName → ℕ
get_reg r pc = r.native.pc
get_reg r sp = r.native.sp
get_reg r fp = r.native.fp
get_reg r lr = r.native.lr
get_reg r cpsr = r.native.cpsr
get_reg r fpsr = r.neon.fpsr
get_reg r fpcr = r.neon.fpcr
get_reg r (x i) = get_or r.native.x i 0
get_reg r (v i) = u64 (get_or r.neon.v i 0)

unfoldable set_reg : Regs → RegName → ℕ → Regs
set_reg r pc value = record r { native = record (r.native) { pc = value } }
set_reg r sp value = record r { native = record (r.native) { sp = value } }
set_reg r fp value = record r { native = record (r.native) { fp = value } }
set_reg r lr value = record r { native = record (r.native) { lr = value } }
set_reg r cpsr value = record r { native = record (r.native) { cpsr = u32 value } }
set_reg r fpsr value = record r { neon = record (r.neon) { fpsr = u32 value } }
set_reg r fpcr value = record r { neon = record (r.neon) { fpcr = u32 value } }
set_reg r (x i) value = record r { native = record (r.native) { x = set r.native.x i value } }
set_reg r (v i) value = record r { neon = record (r.neon) { v = set r.neon.v i value } }

-- The arrays of the registers have their lengths.
pub record HasArrays (r : Regs) : Type 0 where
  pub general : length r.native.x ≡ 29
  pub vectors : length r.neon.v ≡ 32

-- What a register of 32 or of more bits keeps.
abbrev pub kept_in : RegName → ℕ → ℕ
kept_in cpsr value = u32 value
kept_in fpsr value = u32 value
kept_in fpcr value = u32 value
kept_in reg value = value

-- The number of the register is one of its array.
abbrev Exists : RegName → Type 0
Exists (x i) = i < 29
Exists (v i) = i < 32
Exists reg = Unit

get_reg-set_reg :
    (r : Regs) (reg : RegName) (value : ℕ)
    → HasArrays r
    → Exists reg
    → value < 2 ^ 64
    → get_reg (set_reg r reg value) reg ≡ kept_in reg value
unfolding get_reg set_reg
get_reg-set_reg r pc value h e fits = refl
get_reg-set_reg r sp value h e fits = refl
get_reg-set_reg r fp value h e fits = refl
get_reg-set_reg r lr value h e fits = refl
get_reg-set_reg r cpsr value h e fits = refl
get_reg-set_reg r fpsr value h e fits = refl
get_reg-set_reg r fpcr value h e fits = refl
get_reg-set_reg r (x i) value h e fits =
    get_or-set_self r.native.x i value 0 (omega (arith, e, h.general))
get_reg-set_reg r (v i) value h e fits =
    let same = get_or-set_self r.neon.v i value 0 (omega (arith, e, h.vectors)) in
    ap u64 same ∙ omega arith

-- The registers that are there after the call.
abbrev get_or_else : Regs → Option Regs → Regs
get_or_else r none = r
get_or_else r (some changed) = changed

abbrev ExistsIn : Option RegName → Type 0
ExistsIn none = Unit
ExistsIn (some reg) = Exists reg

first_char-same_text :
    (name text : List ℕ) → same_text name text ≡ true → first_char name ≡ first_char text
unfolding same_text first_char
first_char-same_text [] [] h = refl
first_char-same_text [] (b ∷ bs) h = cc
first_char-same_text (a ∷ rest) [] h = cc
first_char-same_text (a ∷ rest) (b ∷ bs) h = ground arith

in_range-le :
    (most : ℕ) (i : Option ℕ) (rest : List ℕ) (n : ℕ) → in_range most i rest ≡ some n → n ≤ most
unfolding in_range
in_range-le most none rest n h = cc
in_range-le most (some i) [] n h = ground arith
in_range-le most (some i) (c ∷ cs) n h = cc

module _ (strtol : List ℕ → Option ℕ × List ℕ) where
  -- The register that has the name: `x0` to `x28` and `v0` to `v31` by their numbers, the others as they stand.
  abbrev pub reg_name : List ℕ → Option RegName
  reg_name name =
      if same_text name pc_text
      then some pc
      else if same_text name sp_text
      then some sp
      else if same_text name fp_text || same_text name x29_text
      then some fp
      else if same_text name lr_text || same_text name x30_text
      then some lr
      else if same_text name cpsr_text
      then some cpsr
      else if same_text name fpsr_text
      then some fpsr
      else if same_text name fpcr_text
      then some fpcr
      else if first_char name == 120
      then Option.map x (index_behind strtol 28 name)
      else if first_char name == 118
      then Option.map v (index_behind strtol 31 name)
      else none

  regs_get_by_name_lem :
      (r : Regs) (name : List ℕ)
      → regs_get_by_name strtol r name ≡ Option.map (get_reg r) (reg_name name)
  unfolding regs_get_by_name get_reg
  regs_get_by_name_lem r name = ground arith

  -- What is set: a general register, or else a floating point register.
  abbrev set_field : Regs → List ℕ → ℕ → Option Regs
  set_field r name value = elim (set_gpr_field strtol r name value) [
    | some r' ↦ some r'
    | none ↦ set_fp_field strtol r name value
  ]

  set_field_lem :
      (r : Regs) (name : List ℕ) (value : ℕ)
      → set_field r name value ≡ Option.map (λ reg. set_reg r reg value) (reg_name name)
  unfolding set_gpr_field set_fp_field set_reg
  set_field_lem r name value =
      ground (arith, first_char-same_text name fpsr_text, first_char-same_text name fpcr_text)

  regs_set_by_name-set_field :
      (k : Kernel) (w : k.World) (pid tid : ℕ) (r : Regs) (name : List ℕ) (value : ℕ)
      → (regs_set_by_name strtol k w pid tid r name value).0
        ≡ get_or_else r (set_field r name value)
  unfolding regs_set_by_name
  regs_set_by_name-set_field k w pid tid r name value = ground arith

  index-ExistsIn :
      (reg : ℕ → RegName) (most : ℕ) (name : List ℕ)
      → ((n : ℕ) → n ≤ most → Exists (reg n))
      → ExistsIn (Option.map reg (index_behind strtol most name))
  unfolding index_behind
  index-ExistsIn reg most name h =
      let text = strtol (behind_first name) in
      mapped (in_range most text.0 text.1) (in_range-le most text.0 text.1)
    where
      mapped : (i : Option ℕ) → ((n : ℕ) → i ≡ some n → n ≤ most) → ExistsIn (Option.map reg i)
      mapped none le = tt
      mapped (some n) le = h n (le n refl)

  reg_name-ExistsIn : (name : List ℕ) → ExistsIn (reg_name name)
  reg_name-ExistsIn name = by_if ExistsIn (same_text name pc_text) tt (
      by_if ExistsIn (same_text name sp_text) tt (
        by_if ExistsIn (same_text name fp_text || same_text name x29_text) tt (
          by_if ExistsIn (same_text name lr_text || same_text name x30_text) tt (
            by_if ExistsIn (same_text name cpsr_text) tt (
              by_if ExistsIn (same_text name fpsr_text) tt (
                by_if ExistsIn (same_text name fpcr_text) tt (
                  by_if ExistsIn (first_char name == 120)
                    (index-ExistsIn x 28 name (λ n h. omega (arith, h)))
                    (by_if ExistsIn (first_char name == 118)
                      (index-ExistsIn v 31 name (λ n h. omega (arith, h))) tt))))))))

  read_back :
      (r : Regs) (value : ℕ) (reg : Option RegName)
      → HasArrays r
      → value < 2 ^ 64
      → ExistsIn reg
      → Option.map (get_reg (get_or_else r (Option.map (λ n. set_reg r n value) reg))) reg
        ≡ Option.map (λ n. kept_in n value) reg
  read_back r value none h fits there = refl
  read_back r value (some reg) h fits there = ap some (get_reg-set_reg r reg value h there fits)

  -- With register arrays of their lengths and a value below 2^64, any name, after a set by the name, is
  -- read as the value, or as its lowest 32 bits where the register of that name has no more, and is not
  -- read at all where no register has the name.
  pub regs_get_by_name-regs_set_by_name :
      (k : Kernel) (w : k.World) (pid tid : ℕ) (r : Regs) (name : List ℕ) (value : ℕ)
      → HasArrays r
      → value < 2 ^ 64
      → regs_get_by_name strtol (regs_set_by_name strtol k w pid tid r name value).0 name
        ≡ Option.map (λ reg. kept_in reg value) (reg_name name)
  regs_get_by_name-regs_set_by_name k w pid tid r name value h fits =
      let changed =
        regs_set_by_name-set_field k w pid tid r name value
        ∙ ap (get_or_else r) (set_field_lem r name value) in
      ap (λ t. regs_get_by_name strtol t name) changed
      ∙ regs_get_by_name_lem _ name
      ∙ read_back r value (reg_name name) h fits (reg_name-ExistsIn name)
