-- ===== src/Pmm/Session/Examples.antt =====
-- Instances of the theorems on `init_pmm` and on sessions, on the
-- machine of Machine.antt.
use osd.Base.{◌^◌, [], ◌∷◌}
use osd.Base.{◌≡◌, ◌≢◌, inl, inr, sym, ◌∙◌, false, refl, arith}
use osd.Base.{ℕ, Memory, List}
use osd.Pmm.Init.{init_pmm}
use osd.Pmm.Logged.{init_pmm_logged}
use osd.Pmm.Logged.Start.{Started, init_pmm_logged-Started}
use osd.Pmm.Init.Booted.{Booted, init_pmm-Booted}
use osd.Pmm.Session.{Session, Reach, start, next, allocates}
use osd.Pmm.Session.Calls.{IsSound, Takes, Gives, pmm_alloc-Takes, pmm_free-Gives}
use osd.Pmm.Session.Safe.{IsDivided, Reach-IsDivided}
use osd.Pmm.Init.Place.{Inside}
use osd.Base.{◌+◌}
use osd.Pmm.Session.Start.{IsSafe, init_pmm-IsSafe, Booted-IsSound}
use osd.Pmm.Alloc.Laws.{Exhausted}
use osd.Pmm.Alloc.{pmm_alloc, pmm_free}
use osd.Pmm.Bitmap.{test_bit}
use osd.Pmm.Zone.{zone_bitmap}
use osd.Pmm.Session.Machine.{
  offset, kernel_start, kernel_end, boot_info, machine, map_entries, low_memory, high_memory,
  machine-IsBootable,
}

init_pmm-Booted_example :
    Booted kernel_start kernel_end offset
      (low_memory ∷ high_memory ∷ [])
      machine
      (init_pmm (2 ^ 21) kernel_start kernel_end offset machine boot_info)
init_pmm-Booted_example =
    init_pmm-Booted (2 ^ 21) kernel_start kernel_end offset machine boot_info map_entries low_memory
      (high_memory ∷ []) machine-IsBootable (omega arith) (omega arith)

-- The memory after `init_pmm`, and the first allocation.
booted :
    Booted kernel_start kernel_end offset
      (low_memory ∷ high_memory ∷ [])
      machine
      (init_pmm (2 ^ 21) kernel_start kernel_end offset machine boot_info)
booted =
    init_pmm-Booted (2 ^ 21) kernel_start kernel_end offset machine boot_info map_entries low_memory
      (high_memory ∷ []) machine-IsBootable (omega arith) (omega arith)

booted-IsSound : IsSound booted.mem kernel_end (kernel_end ∷ 0xC0110034 ∷ [])
booted-IsSound =
    Booted-IsSound (2 ^ 21) kernel_start kernel_end offset machine boot_info map_entries low_memory
      (high_memory ∷ []) machine-IsBootable booted ((inl (omega arith), tt), (tt, tt))

-- Block 1 of the first zone and block 100 of the second are not taken.
low_bit : test_bit booted.mem (zone_bitmap booted.mem kernel_end) 1 ≡ false
low_bit = rw booted.laid.0.laid.bitmap (booted.laid.0.bits 1 (omega arith))

high_bit : test_bit booted.mem (zone_bitmap booted.mem 0xC0110034) 100 ≡ false
high_bit = rw booted.laid.2.0.laid.bitmap (booted.laid.2.0.bits 100 (omega arith))

some_block : ¬ Exhausted booted.mem (kernel_end ∷ 0xC0110034 ∷ [])
some_block (inl none) = omega (arith, none kernel_end (inl refl), booted.laid.0.laid.free)
some_block (inr (z, inl e, room, full)) =
    let set = rw (sym e) at full in
    cc (sym low_bit ∙ set 1 (omega arith) (omega (arith, booted.laid.0.laid.length)))
some_block (inr (z, inr (inl e), room, full)) =
    let set = rw (sym e) at full in
    cc (sym high_bit ∙ set 100 (omega arith) (omega (arith, booted.laid.2.0.laid.length)))
some_block (inr (z, inr (inr k), room, full)) = k

first_call :
    Takes booted.mem kernel_end
      (kernel_end ∷ 0xC0110034 ∷ [])
      (pmm_alloc (2 ^ 21) booted.mem kernel_end)
first_call =
    pmm_alloc-Takes (2 ^ 21) (omega arith) booted.mem kernel_end (kernel_end ∷ 0xC0110034 ∷ [])
      booted-IsSound (omega arith)

got_one : first_call.addr ≢ 0
got_one e = elim first_call.outcome [ inl nothing ↦ some_block nothing.2 | inr taken ↦ taken.0 e ]

abbrev after_one : Session
after_one = record { mem = first_call.mem; held = first_call.addr ∷ [] }

one_step : Reach (2 ^ 21) kernel_end kernel_end (record { mem = booted.mem; held = [] }) after_one
one_step = next start (allocates first_call.addr first_call.mem first_call.returns got_one refl)

init_pmm-IsSafe_example :
    IsSafe 0x100000 0x110093 (first_call.addr ∷ [])
    × Inside machine first_call.mem kernel_end (kernel_end + 0x94)
init_pmm-IsSafe_example =
    init_pmm-IsSafe (2 ^ 21) kernel_start kernel_end offset machine boot_info map_entries low_memory
      (high_memory ∷ []) machine-IsBootable (omega arith) (omega arith) (omega arith)
      ((inl (omega arith), tt), (tt, tt)) booted.mem booted.returns one_step

pmm_alloc-Takes_example :
    Takes booted.mem kernel_end
      (kernel_end ∷ 0xC0110034 ∷ [])
      (pmm_alloc (2 ^ 21) booted.mem kernel_end)
pmm_alloc-Takes_example =
    pmm_alloc-Takes (2 ^ 21) (omega arith) booted.mem kernel_end (kernel_end ∷ 0xC0110034 ∷ [])
      booted-IsSound (omega arith)

Reach-IsDivided_example : IsDivided kernel_end (kernel_end ∷ 0xC0110034 ∷ []) booted.mem after_one
Reach-IsDivided_example =
    Reach-IsDivided (2 ^ 21) (omega arith) kernel_end kernel_end (0xC0110034 ∷ []) (omega arith)
      booted.mem booted-IsSound one_step

-- Block 5 of the first zone.
pmm_free-Gives_example :
    Gives booted.mem kernel_end
      (kernel_end ∷ 0xC0110034 ∷ [])
      0x5000
      (pmm_free (2 ^ 21) booted.mem kernel_end 0x5000)
pmm_free-Gives_example =
    pmm_free-Gives (2 ^ 21) (omega arith) booted.mem kernel_end kernel_end 5 0x5000
      (0xC0110034 ∷ []) booted-IsSound
      (omega (arith, booted.laid.0.laid.length, booted.laid.0.laid.start)) (omega arith)

abbrev unknown : Memory
unknown a = 7

abbrev boot_zones : List ℕ
boot_zones = kernel_end ∷ 0xC0110034 ∷ []

booted_long :
    Booted kernel_start kernel_end offset
      (low_memory ∷ high_memory ∷ [])
      machine
      (init_pmm (2 ^ 33) kernel_start kernel_end offset machine boot_info)
booted_long =
    init_pmm-Booted (2 ^ 33) kernel_start kernel_end offset machine boot_info map_entries low_memory
      (high_memory ∷ []) machine-IsBootable (omega arith) (omega arith)

init_pmm_logged-Started_example :
    Started
      (2 ^ 33)
      unknown
      kernel_start
      kernel_end
      offset
      machine
      boot_info
      booted_long.mem
      boot_zones
      (init_pmm_logged (2 ^ 33) unknown kernel_start kernel_end offset machine boot_info)
init_pmm_logged-Started_example =
    init_pmm_logged-Started (2 ^ 33) unknown kernel_start kernel_end offset machine boot_info
      booted_long.mem boot_zones (omega arith) booted_long.returns booted_long.zones
      booted_long.words (omega arith, (omega arith, tt)) (omega arith)
