-- ===== src/Pmm/Logged/Start.antt =====
-- `init_pmm` of lumos/arch/i386/pmm.c with its messages.
mod Rounds
use osd.Base.{
  ℕ, ◌+◌, ◌-◌, ◌^◌, ◌<◌, bit_and, u32, Memory, IsWords, List, [], ◌∷◌, ◌++◌, codes, length,
}
use osd.Base.{
  Option, none, some, ◌>>=◌, Option-cases, Bool-cases, ltb, ◌==◌, not, false, inl, inr, refl, arith,
  ◌≡◌, ◌≢◌, ap, if◌then◌else◌,
}
use osd.Libc.Format.{Line}
use osd.Pmm.Zone.{zone_start, zone_end, Zones}
use osd.Pmm.Init.{
  mbt_flag_is_mmap, mbt_flags, mbt_mmap_length, mbt_mmap_addr, section_base_low, section_length_low,
  section_type, is_skipped, Scan, scan_section, scan_sections, is_overlap, start_bit, end_bit,
  Reserve, reserve_zone, reserve_zones, Boot, aborted, ready, init_pmm,
}
use osd.Pmm.Print.{say}
use osd.Pmm.Print.Sent.{IsSender, plain-IsSender, decimal-IsSender, pair-IsSender, IsSender-append}
use osd.Pmm.Print.Zones.{nothing-IsSender, header, footer, zones_text, AllShort, print_zones-Sends}
use osd.Pmm.Logged.{
  scan_section_logged, reserve_zone_logged, reserve_logged, init_pmm_logged, word_argument,
}
use osd.Pmm.Logged.Logs.{
  Logs, Logs-return, IsSender-Logs, IsSender-last, Logs-Logs, run_text, while_some-Logs,
}
use osd.Pmm.Logged.Messages.{decimal, hex, section_text, overlap_text, reserve_text, entry-IsSender}
use osd.Pmm.Logged.Start.Rounds.{scan_section_logged-Logs, reserve_zone_logged-Logs}

module _ (fuel : ℕ) (unknown : Memory) (kernel_end : ℕ) where
  -- What is said from the reservation of the kernel's blocks on, in which `m` becomes `m'` with the
  -- zones `zs`.
  abbrev pub reserving_text : ℕ → ℕ → Memory → Memory → List ℕ → List ℕ
  reserving_text lo hi m m' zs =
      codes "\nReserving kernel blocks\n"
      ++ ((codes "kernel start : "
            ++ (hex fuel unknown lo
                ++ (codes "\tkernel end: " ++ (hex fuel unknown hi ++ codes "\n"))))
          ++ (run_text (λ r. not (r.zone == 0)) (reserve_zone fuel lo hi)
                (reserve_text fuel unknown lo hi) fuel (record { zone = kernel_end; mem = m })
              ++ (header ++ (zones_text fuel unknown m' zs ++ footer))))

  module _ (enough : 2 ^ 32 < fuel) (m' : Memory) (zs : List ℕ) (v : Zones m' kernel_end zs)
      (w : IsWords m') (short : AllShort zs) (few : length zs < fuel) where
    reserve_logged-Logs :
        (lo hi : ℕ) (m : Memory) (r : Reserve)
        → reserve_zones fuel lo hi kernel_end m ≡ some r
        → r.mem ≡ m'
        → Logs
            (reserving_text lo hi m m' zs)
            (ready m')
            (reserve_logged fuel unknown kernel_end lo hi m)
    unfolding reserve_logged reserve_zones
    reserve_logged-Logs lo hi m r e same =
        IsSender-Logs _ _ _ _ _
          (plain-IsSender fuel unknown enough (codes "\nReserving kernel blocks\n") refl
            (omega arith))
          (IsSender-Logs _ _ _ _ _
            (pair-IsSender fuel unknown enough (codes "kernel start : ") (codes "\tkernel end: ")
              (codes "\n") b'x' 16 (u32 lo) b'x' 16 (u32 hi) (inr (inl (refl, refl)))
              (inr (inl (refl, refl))) (omega arith) (omega arith) refl refl refl (omega arith))
            (Logs-Logs _ _ r (ready m') _ _
              (while_some-Logs (λ (t : Reserve). not (t.zone == 0)) (reserve_zone fuel lo hi)
                (reserve_text fuel unknown lo hi) (reserve_zone_logged fuel unknown lo hi)
                (reserve_zone_logged-Logs fuel unknown enough lo hi) fuel
                (record { zone = kernel_end; mem = m }) r e)
              (rw same (
                IsSender-last _ (ready m') _ (λ l h.
                  print_zones-Sends fuel unknown enough m' w kernel_end zs l v short few h)))))

abbrev memory_of : Option Boot → Memory
memory_of (some (ready m)) = m
memory_of _ = λ a. 0

aborted-ne-ready : (m : Memory) → some aborted ≢ some (ready m)
aborted-ne-ready m e = cc

none-ne-some : (m : Memory) → none ≢ some (ready m)
none-ne-some m e = cc

module _ (fuel : ℕ) (unknown : Memory) (kernel_start kernel_end offset : ℕ) (m : Memory)
    (b : ℕ) where
  abbrev pub scan_limit : ℕ
  scan_limit = u32 (u32 (mbt_mmap_addr m b + mbt_mmap_length m b) + offset)

  abbrev pub scan_start : Scan
  scan_start = record { section = u32 (mbt_mmap_addr m b + offset); zone = 0; size = 0; mem = m }

  abbrev res_start : ℕ
  res_start = u32 (kernel_start + 2 ^ 32 - offset)

  abbrev res_end : ℕ → ℕ
  res_end size = u32 (u32 (kernel_end + 2 ^ 32 - offset) + 2 ^ 32 - 1 + size)

  -- All that `init_pmm` says, where the first loop ends in the state `s`, and the memory at the end is
  -- `m'` with the zones `zs`.
  abbrev pub init_text : Scan → Memory → List ℕ → List ℕ
  init_text s m' zs =
      codes "[pmm]: init_pmm()\n"
      ++ (run_text (λ t. ltb t.section scan_limit) (scan_section fuel kernel_end)
            (section_text fuel unknown) fuel scan_start
          ++ ((codes "PMM strucutres take " ++ (decimal fuel unknown s.size ++ codes " bytes\n"))
              ++ reserving_text fuel unknown kernel_end res_start (res_end s.size) s.mem m' zs))

  -- The states between the loops of a call that ends with `m'`.
  record Passed (m' : Memory) : Type 0 where
    scanned : Scan
    reserved : Reserve
    has_map : bit_and (mbt_flags m b) mbt_flag_is_mmap == 0 ≡ false
    scan : scan_sections fuel kernel_end scan_limit scan_start ≡ some scanned
    reserve :
        reserve_zones fuel res_start (res_end scanned.size) kernel_end scanned.mem ≡ some reserved
    last : reserved.mem ≡ m'

  init_pmm-Passed :
      (m' : Memory) → init_pmm fuel kernel_start kernel_end offset m b ≡ some (ready m') → Passed m'
  unfolding init_pmm
  init_pmm-Passed m' e = elim (Bool-cases (bit_and (mbt_flags m b) mbt_flag_is_mmap == 0)) [
    | inl none_there ↦ absurd (aborted-ne-ready m' (rw none_there at e))
    | inr map ↦ elim (Option-cases (scan_sections fuel kernel_end scan_limit scan_start)) [
      | inl stuck ↦ absurd (none-ne-some m' (rw (map, stuck) at e))
      | inr (s, scan) ↦
          elim (Option-cases (reserve_zones fuel res_start (res_end s.size) kernel_end s.mem)) [
            | inl stuck ↦ absurd (none-ne-some m' (rw (map, scan, stuck) at e))
            | inr (r, reserve) ↦ record {
              scanned = s;
              reserved = r;
              has_map = map;
              scan = scan;
              reserve = reserve;
              last = ap memory_of (rw (map, scan, reserve) at e);
            }
          ]
    ]
  ]

  -- The call with its messages: it ends like the call without them, and has sent exactly the messages.
  pub record Started (m' : Memory) (zs : List ℕ) (f : Line → Option (Boot × Line)) : Type 0 where
    pub scanned : Scan
    pub scan : scan_sections fuel kernel_end scan_limit scan_start ≡ some scanned
    pub logs : Logs (init_text scanned m' zs) (ready m') f

  -- Where `init_pmm` without its messages ends with a memory of words and a well-formed list of zones at
  -- 32-bit addresses, with fuel above 2 ^ 32 and above the number of zones, and a serial line that is
  -- ready at least once for each character of the messages: `init_pmm` with its messages ends with
  -- the same memory, and has sent, in order, a line for each usable section, the sizes, what it
  -- reserves in each zone, and the list of the zones.
  pub init_pmm_logged-Started :
      (m' : Memory) (zs : List ℕ)
      → 2 ^ 32 < fuel
      → init_pmm fuel kernel_start kernel_end offset m b ≡ some (ready m')
      → Zones m' kernel_end zs
      → IsWords m'
      → AllShort zs
      → length zs < fuel
      → Started m' zs (init_pmm_logged fuel unknown kernel_start kernel_end offset m b)
  unfolding init_pmm_logged scan_sections
  init_pmm_logged-Started m' zs enough e v w short few =
      let k = init_pmm-Passed m' e in
      let s = k.scanned in
      record {
        scanned = s;
        scan = k.scan;
        logs =
            IsSender-Logs _ _ _ _ _
              (plain-IsSender fuel unknown enough (codes "[pmm]: init_pmm()\n") refl (omega arith))
              (rw k.has_map (
                Logs-Logs _ _ s (ready m') _ _
                  (while_some-Logs (λ (t : Scan). ltb t.section scan_limit)
                    (scan_section fuel kernel_end) (section_text fuel unknown)
                    (scan_section_logged fuel unknown kernel_end)
                    (scan_section_logged-Logs fuel unknown enough kernel_end) fuel scan_start s
                    k.scan)
                  (IsSender-Logs _ _ _ _ _
                    (decimal-IsSender fuel unknown enough (codes "PMM strucutres take ")
                      (codes " bytes\n") (u32 s.size) (omega arith) refl refl (omega arith))
                    (reserve_logged-Logs fuel unknown kernel_end enough m' zs v w short few
                      res_start (res_end s.size) s.mem k.reserved k.reserve k.last))));
      }

  -- Without a memory map, and with fuel above 2 ^ 32, the call says so and aborts.
  pub init_pmm_logged-aborted :
      2 ^ 32 < fuel
      → bit_and (mbt_flags m b) mbt_flag_is_mmap ≡ 0
      → Logs
          (codes "[pmm]: init_pmm()\n" ++ codes "[PMM] : No memory map available\n")
          aborted
          (init_pmm_logged fuel unknown kernel_start kernel_end offset m b)
  unfolding init_pmm_logged
  init_pmm_logged-aborted enough none_there =
      IsSender-Logs _ _ _ _ _
        (plain-IsSender fuel unknown enough (codes "[pmm]: init_pmm()\n") refl (omega arith))
        (rw none_there (
          IsSender-last _ aborted _ (
            plain-IsSender fuel unknown enough (codes "[PMM] : No memory map available\n") refl
              (omega arith))))
