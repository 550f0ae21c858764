-- ===== src/Slide/Regions.antt =====
-- The walk over the regions of a task in src/lineno.c and src/syms.c, against the list of the regions.
use macos_c_debugger_arm.Prelude.{
  ℕ, zero, suc, ◌+◌, ◌^◌, ◌≤◌, ◌<◌, ◌≡◌, refl, ◌∙◌, true, false, Option, none, some, List, [], ◌∷◌,
  length, ltb, if◌then◌else◌, arith, u64, sub64,
}
use macos_c_debugger_arm.Slide.{
  Region, Walk, found, nowhere, unfinished, is_code, slide_loop, max_regions, find_slide,
}

-- What the system documents: the first region that ends behind the address.
abbrev pub region_at : List Region → ℕ → Option Region
region_at [] addr = none
region_at (r ∷ rs) addr =
    let rest = region_at rs addr in if ltb addr (r.address + r.size) then some r else rest

-- The regions have bytes, lie above the address in their order, and end within the address space.
abbrev pub AreOrdered : ℕ → List Region → Type 0
AreOrdered addr [] = Unit
AreOrdered addr (r ∷ rs) =
    (addr ≤ r.address)
    × (0 < r.size)
    × (r.address + r.size < 2 ^ 64)
    × AreOrdered (r.address + r.size) rs

abbrev pub first_code : List Region → Walk ℕ
first_code [] = Walk.nowhere
first_code (r ∷ rs) = if is_code r then Walk.found r.address else first_code rs

slide_loop-region_at :
    (region : ℕ → Option Region) (fuel addr : ℕ) (rs : List Region)
    → ((a : ℕ) → addr ≤ a → region a ≡ region_at rs a)
    → AreOrdered addr rs
    → length rs < fuel
    → slide_loop region fuel addr ≡ first_code rs
unfolding slide_loop
slide_loop-region_at region zero addr rs same h enough = absurd (omega arith)
slide_loop-region_at region (suc fuel) addr [] same h enough =
    rw (slide_loop, same addr (omega arith)) refl
slide_loop-region_at region (suc fuel) addr (r ∷ rs) same (above, large, fits, h) enough =
    let here : region_at (r ∷ rs) addr ≡ some r =
      (let near : ltb addr (r.address + r.size) ≡ true = ground (arith, above, large) in
        rw near refl) in
    let end : u64 (r.address + r.size) ≡ r.address + r.size = omega (arith, fits) in
    let later =
      slide_loop-region_at region fuel (r.address + r.size) rs
        (λ a le.
          let far : ltb a (r.address + r.size) ≡ false = ground (arith, le) in
          same a (omega (arith, above, le)) ∙ rw far refl)
        h (omega arith) in
    rw (slide_loop, same addr (omega arith), here, end, later) refl

length-AreOrdered :
    (addr : ℕ) (rs : List Region) → AreOrdered addr rs → addr < 2 ^ 64 → addr + length rs < 2 ^ 64
length-AreOrdered addr [] h below = omega (arith, below)
length-AreOrdered addr (r ∷ rs) (above, large, fits, h) below =
    let rest = length-AreOrdered (r.address + r.size) rs h fits in omega (arith, rest, above, large)

-- Over regions in their order, within the address space and each of at least one byte, the slide is the
-- distance from the link base to the first region that can be read and executed; if there is none, the
-- walk ends without one.
pub find_slide-region_at :
    (rs : List Region) (link_base : ℕ)
    → AreOrdered 0 rs
    → find_slide (some (region_at rs)) link_base ≡ (elim (first_code rs) [
      | found address ↦ Walk.found (sub64 address link_base)
      | nowhere ↦ Walk.nowhere
      | unfinished ↦ Walk.unfinished
    ])
unfolding find_slide
find_slide-region_at rs link_base h =
    let few = length-AreOrdered 0 rs h (omega arith) in
    rw
      (
        find_slide,
        slide_loop-region_at (region_at rs) max_regions 0 rs (λ a le. refl) h (omega (arith, few)),
      )
      refl
