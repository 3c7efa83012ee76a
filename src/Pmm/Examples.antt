-- ===== src/Pmm/Examples.antt =====
-- Runs and instances of the memory manager's theorems on one small zone of 40 blocks.
use osd.Com.Log.{ready_reads, count_ready-ready_reads}
use osd.Libc.Format.{Line}
use osd.Pmm.Print.{print_zones}
use osd.Pmm.Logged.{pmm_alloc_logged, pmm_free_logged}
use osd.Pmm.Logged.Logs.{Logged}
use osd.Pmm.Logged.Messages.{alloc_text, free_text}
use osd.Pmm.Logged.Calls.{pmm_alloc_logged-Logs, pmm_free_logged-Logs}
use osd.Pmm.Print.Sent.{Sends}
use osd.Pmm.Print.Zones.{zones_text, header, footer, print_zones-Sends}
use osd.Base.{List, length, ◌++◌, ℕ, ◌^◌, Memory, IsWords, [], ◌∷◌, ◌==◌, if◌then◌else◌}
use osd.Base.{
  ◌∙◌, ap, ◌≡◌, refl, arith, true, false, inl, some, all_below, all_below_lem, ltb, ◌||◌,
}
use osd.Pmm.Bitmap.{test_bit, set_bits, unset_bits, set_bit}
use osd.Pmm.Bitmap.Range.{Fills, set_bits-Fills, unset_bits-Fills}
use osd.Pmm.Zone.{IsZone, Zones}
use osd.Pmm.Alloc.{pmm_alloc, pmm_alloc2, pmm_free, mark_used}
use osd.Pmm.Alloc.Search.{first_zone, first_clear}
use osd.Pmm.Alloc.Spec.{alloc_spec, pmm_alloc_lem}
use osd.Pmm.Alloc.Laws.{Ended, pmm_alloc-Ended, pmm_alloc2-Ended}
use osd.Pmm.Alloc.Mark.{IsMarked}
use osd.Pmm.Alloc.Free.{pmm_free-first_zone, pmm_free-pmm_alloc}

abbrev empty : Memory
empty a = 0

empty-IsWords : IsWords empty
empty-IsWords a = omega arith

set_bits-Fills_example : Fills true 0 5 70 empty (set_bits 100 empty 0 5 70)
set_bits-Fills_example =
    set_bits-Fills 100 empty 0 5 70 (omega arith) (omega arith) (omega arith) empty-IsWords

unset_bits-Fills_example : Fills false 0 5 70 empty (unset_bits 100 empty 0 5 70)
unset_bits-Fills_example =
    unset_bits-Fills 100 empty 0 5 70 (omega arith) (omega arith) (omega arith) empty-IsWords

-- A zone at address 4096 of 40 blocks from 1 MiB on, with the blocks 0 and 2 in use.
abbrev demo : Memory
demo a =
    if a == 4096
    then 0x100000
    else if a == 4100
    then 0x127FFF
    else if a == 4104
    then 40
    else if a == 4108
    then 38
    else if a == 4116
    then 2
    else if a == 4120
    then 4128
    else if a == 4128
    then 5
    else if a == 4132
    then 0xFFFFFF00
    else 0

demo-IsWords : IsWords demo
demo-IsWords a = ground arith

padding_table : all_below 64 (λ j. ltb j 40 || test_bit demo 4128 j) ≡ true
unfolding all_below test_bit
padding_table = refl

demo-IsZone : IsZone demo 4096
demo-IsZone = record {
  not_null = omega arith;
  bitmap_at = refl;
  bitmap_fits = refl;
  hint = refl;
  below_4g = omega arith;
  in_order = omega arith;
  padding = λ j p q. ground (arith, all_below_lem 64 _ j (omega arith) padding_table);
}

demo-Zones : Zones demo 4096 (4096 ∷ [])
demo-Zones = (refl, demo-IsZone, inl refl, refl)

abbrev fuel : ℕ
fuel = 2 ^ 21

pmm_alloc_lem_example : pmm_alloc fuel demo 4096 ≡ some (alloc_spec demo (4096 ∷ []))
pmm_alloc_lem_example =
    pmm_alloc_lem fuel demo demo-IsWords (omega arith) 4096 (4096 ∷ []) demo-Zones (omega arith)

pmm_alloc2-Ended_example :
    Ended demo 4096 (4096 ∷ []) (pmm_alloc2 fuel demo 4096)
    × (pmm_alloc2 fuel demo 4096 ≡ pmm_alloc fuel demo 4096)
pmm_alloc2-Ended_example =
    pmm_alloc2-Ended fuel demo demo-IsWords (omega arith) 4096 (4096 ∷ []) demo-Zones (omega arith)

pmm_alloc-Ended_example : Ended demo 4096 (4096 ∷ []) (pmm_alloc fuel demo 4096)
pmm_alloc-Ended_example =
    pmm_alloc-Ended fuel demo demo-IsWords (omega arith) 4096 (4096 ∷ []) demo-Zones (omega arith)

-- Block 2 of the zone is given back, after which 39 blocks count as free.
pmm_free-first_zone_example :
    (m' : Memory) × (pmm_free fuel demo 4096 0x102000 ≡ some m') × IsMarked false 39 demo 4096 2 m'
pmm_free-first_zone_example =
    pmm_free-first_zone fuel demo 4096 4096 [] demo-Zones (omega arith) 0x102000 demo-IsWords

-- Block 1 is the lowest free one.
alloc_spec_run : alloc_spec demo (4096 ∷ []) ≡ (0x101000, mark_used demo 4096 1)
unfolding first_zone first_clear test_bit mark_used set_bit
alloc_spec_run = refl

pmm_alloc_run : pmm_alloc fuel demo 4096 ≡ some (0x101000, mark_used demo 4096 1)
pmm_alloc_run =
    pmm_alloc_lem fuel demo demo-IsWords (omega arith) 4096 (4096 ∷ []) demo-Zones (omega arith)
    ∙ ap some alloc_spec_run

pmm_free-pmm_alloc_example : pmm_free fuel (mark_used demo 4096 1) 4096 0x101000 ≡ some demo
pmm_free-pmm_alloc_example =
    pmm_free-pmm_alloc fuel demo demo-IsWords (omega arith) 4096 4096 [] demo-Zones (omega arith)
      0x101000 (mark_used demo 4096 1) (omega arith) pmm_alloc_run (omega arith)

abbrev demo_text : List ℕ
demo_text = header ++ (zones_text (2 ^ 33) empty demo (4096 ∷ []) ++ footer)

abbrev demo_line : Line
demo_line = record { reads = ready_reads (length demo_text); sent = [] }

print_zones-Sends_example :
    Sends demo_text demo_line (print_zones (2 ^ 33) empty demo 4096 demo_line)
print_zones-Sends_example =
    print_zones-Sends (2 ^ 33) empty (omega arith) demo demo-IsWords 4096 (4096 ∷ []) demo_line
      demo-Zones (omega arith, tt) (omega arith)
      (omega (arith, count_ready-ready_reads (length demo_text)))

abbrev alloc_line : Line
alloc_line = record {
  reads = ready_reads (length (alloc_text (2 ^ 33) empty demo (4096 ∷ [])));
  sent = [];
}

pmm_alloc_logged-Logs_example :
    Logged
      (alloc_text (2 ^ 33) empty demo (4096 ∷ []))
      (alloc_spec demo (4096 ∷ []))
      alloc_line
      (pmm_alloc_logged (2 ^ 33) empty demo 4096 alloc_line)
pmm_alloc_logged-Logs_example =
    pmm_alloc_logged-Logs (2 ^ 33) empty (omega arith) demo demo-IsWords 4096 (4096 ∷ []) demo-Zones
      (omega arith) alloc_line
      (omega (arith, count_ready-ready_reads (length (alloc_text (2 ^ 33) empty demo (4096 ∷ [])))))

abbrev free_line : Line
free_line = record {
  reads = ready_reads (length (free_text (2 ^ 33) empty demo 4096 0x102000));
  sent = [];
}

pmm_free_logged-Logs_example :
    (m' : Memory) × IsMarked false 39 demo 4096 2 m'
    × Logged
        (free_text (2 ^ 33) empty demo 4096 0x102000)
        m'
        free_line
        (pmm_free_logged (2 ^ 33) empty demo 4096 0x102000 free_line)
pmm_free_logged-Logs_example =
    pmm_free_logged-Logs (2 ^ 33) empty (omega arith) demo demo-IsWords 4096 4096 0x102000 []
      demo-Zones free_line
      (omega
        (arith, count_ready-ready_reads (length (free_text (2 ^ 33) empty demo 4096 0x102000))))
