-- ===== src/Slide/Tests.antt =====
-- The slide at concrete inputs.
use macos_c_debugger_arm.Prelude.{◌≡◌, some, List, [], ◌∷◌, arith}
use macos_c_debugger_arm.Slide.{Region, Walk, find_slide}
use macos_c_debugger_arm.Slide.Regions.{region_at, find_slide-region_at}

-- A region that can only be read in front of the code.
abbrev regions : List Region
regions =
    record { address = 0x1000; size = 0x1000; protection = 1 }
    ∷ record { address = 0x104000000; size = 0x4000; protection = 5 }
    ∷ []

find_slide-region_at_example :
    find_slide (some (region_at regions)) 0x100000000 ≡ Walk.found 0x4000000
find_slide-region_at_example =
    find_slide-region_at regions 0x100000000
      (omega arith, omega arith, omega arith, (omega arith, omega arith, omega arith, tt))
