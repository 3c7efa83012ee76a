-- ===== src/Pmm/Logged.antt =====
-- `pmm_alloc`, `pmm_alloc2`, `pmm_free` and `init_pmm` of lumos/arch/i386/pmm.c with the messages that
-- they write to the serial line; what they do to the memory is in Alloc.antt and Init.antt.
pub mod Logs
pub mod Messages
pub mod Calls
pub mod Start
use osd.Base.{
  ℕ, ◌+◌, ◌-◌, ◌^◌, bit_and, u32, full_word, Memory, store, while, while_some, Option, some, ◌>>=◌,
  List, [], ◌∷◌, codes,
}
use osd.Base.{leb, ltb, ◌==◌, not, ◌&&◌, if◌then◌else◌}
use osd.Pmm.Bitmap.{word, word_addr, set_bit, test_bit}
use osd.Libc.Format.{Argument, number, Line}
use osd.Pmm.Zone.{
  zone_start, zone_end, zone_length, zone_free, zone_bitmap, zone_next, zone_last_offset,
  block_size, get_offset, get_address,
}
use osd.Pmm.Alloc.{find_free_zone, find_word, find_bit, mark_used, find_zone, mark_free}
use osd.Pmm.Init.{
  mbt_flag_is_mmap, mbt_flags, mbt_mmap_length, mbt_mmap_addr, section_base_low, section_length_low,
  section_type, is_skipped, Scan, scan_section, is_overlap, start_bit, end_bit, Reserve,
  reserve_zone, Boot, aborted, ready,
}
use osd.Pmm.Print.{say, print_zones}

-- A word as an argument of `logf`, which takes 32 bits of it.
abbrev pub word_argument : ℕ → Argument
word_argument x = number (u32 x)

module _ (fuel : ℕ) (unknown : Memory) where
  -- The end of an allocation that finds nothing.
  pub refuse : Memory → List ℕ → Line → Option ((ℕ × Memory) × Line)
  refuse m message l = do a ← say fuel unknown message [] l; some ((0, m), a)

  -- From the search for a word on, which begins at block `first`.
  pub alloc_in_logged : Memory → ℕ → ℕ → Line → Option ((ℕ × Memory) × Line)
  alloc_in_logged m z first l = do
    i ← find_word fuel m z first
    if leb (zone_length m z) i then refuse m (codes "no free words in zone\n") l else do
      a ← say fuel unknown (codes "searching in word %d\n") (word_argument i ∷ []) l
      let end = u32 (i + 32)
      j ← find_bit fuel m z end i
      if leb end j then refuse m (codes "no free blocks in word\n") a else do
        b ← say fuel unknown (codes "returning block at %d\n") (word_argument j ∷ []) a
        let m' = mark_used m z j
        some ((get_address (zone_start m' z) j block_size, m'), b)

  -- `pmm_alloc`, with `first` for the block where the search in a zone begins.
  pub search_logged : (ℕ → ℕ) → Memory → ℕ → Line → Option ((ℕ × Memory) × Line)
  search_logged first m zones l = do
    a ← say fuel unknown (codes "\n[pmm_alloc] : trying to allocate 1 block\n") [] l
    z ← find_free_zone fuel m zones
    if z == 0 then refuse m (codes "no free zones\n") a else do
      b ←
          say fuel unknown (codes "searching in zone starting at %x\n")
            (word_argument (zone_start m z) ∷ []) a
      alloc_in_logged m z (first z) b

  pub pmm_alloc_logged : Memory → ℕ → Line → Option ((ℕ × Memory) × Line)
  pmm_alloc_logged m = search_logged (λ z. zone_last_offset m z) m

  -- The text of `pmm_alloc2`, with its own loops and messages.
  pub pmm_alloc2_logged : Memory → ℕ → Line → Option ((ℕ × Memory) × Line)
  pmm_alloc2_logged m zones l = do
    a ← say fuel unknown (codes "\n[pmm_alloc] : trying to allocate 1 block\n") [] l
    z ← while fuel (λ p. not (p == 0) && (zone_free m p == 0)) (λ p. zone_next m p) zones
    if z == 0 then refuse m (codes "no free zones\n") a else do
      b ←
          say fuel unknown (codes "searching in zone starting at %x\n")
            (word_argument (zone_start m z) ∷ []) a
      i ←
          while fuel
            (λ k. (m (word_addr (zone_bitmap m z) k) == full_word) && ltb k (zone_length m z))
            (λ k. u32 (k + word)) 0
      if leb (zone_length m z) i then refuse m (codes "no free words in zone\n") b else do
        c ← say fuel unknown (codes "searching in word %d\n") (word_argument i ∷ []) b
        let end = u32 (i + 32)
        j ← while fuel (λ k. ltb k end && test_bit m (zone_bitmap m z) k) (λ k. u32 (k + 1)) i
        if leb end j then refuse m (codes "no free blocks in word\n") c else do
          d ← say fuel unknown (codes "returning block at %d\n") (word_argument j ∷ []) c
          let x = set_bit m (zone_bitmap m z) j
          let y = store x (z + 12) (u32 (zone_free x z + 2 ^ 32 - 1))
          some ((get_address (zone_start y z) j block_size, y), d)

  pub pmm_free_logged : Memory → ℕ → ℕ → Line → Option (Memory × Line)
  pmm_free_logged m zones addr l = do
    a ←
        say fuel unknown (codes "\n[pmm_alloc] : trying to free 1 block at %x (%d)\n")
          (word_argument addr ∷ word_argument addr ∷ []) l
    z ← find_zone fuel m zones addr
    if z == 0
        then (say fuel unknown (codes "couldn't find address in a zone") [] a >>= λ b. some (m, b))
        else do
          b ←
              say fuel unknown (codes "found address in zone starting at %x\n")
                (word_argument (zone_start m z) ∷ []) a
          let offset = get_offset (zone_start m z) addr block_size
          c ← say fuel unknown (codes "address offset : %d\n") (word_argument offset ∷ []) b
          some (mark_free m z offset, c)

  module _ (kernel_end : ℕ) where
    -- One round of the first loop of `init_pmm`, on its variables and the line.
    pub scan_section_logged : Scan × Line → Option (Scan × Line)
    scan_section_logged (s, l) = do
      a ←
          if is_skipped s.mem s.section
          then some l
          else say fuel unknown (codes "(*) base: %x\tlen: %x bytes\ttype: %d\n")
              (word_argument (section_base_low s.mem s.section)
                ∷ word_argument (section_length_low s.mem s.section)
                ∷ word_argument (section_type s.mem s.section)
                ∷ [])
              l
      t ← scan_section fuel kernel_end s
      some (t, a)

  module _ (res_start res_end : ℕ) where
    -- One round of the second loop.
    pub reserve_zone_logged : Reserve × Line → Option (Reserve × Line)
    reserve_zone_logged (r, l) = do
      a ←
          say fuel unknown (codes "zone start: %x\tzone end: %x\n")
            (word_argument (zone_start r.mem r.zone) ∷ word_argument (zone_end r.mem r.zone) ∷ []) l
      b ←
          if is_overlap res_start res_end r.mem r.zone
          then (say fuel unknown (codes "kernel and zone overlap\n") [] a
              >>= say fuel unknown (codes "kstart bit: %d\tkend bit: %d\n") (
                  word_argument (start_bit res_start res_end r.mem r.zone)
                  ∷ word_argument (end_bit res_start res_end r.mem r.zone)
                  ∷ []))
          else some a
      t ← reserve_zone fuel res_start res_end r
      c ← say fuel unknown (codes "\n") [] b
      some (t, c)

  -- The parts of `init_pmm` behind the test for a memory map.
  pub reserve_logged : ℕ → ℕ → ℕ → Memory → Line → Option (Boot × Line)
  reserve_logged kernel_end res_start res_end m l = do
    a ← say fuel unknown (codes "\nReserving kernel blocks\n") [] l
    b ←
        say fuel unknown (codes "kernel start : %x\tkernel end: %x\n")
          (word_argument res_start ∷ word_argument res_end ∷ []) a
    r ←
        while_some fuel (λ t. not (t.0.zone == 0)) (reserve_zone_logged res_start res_end)
          (record { zone = kernel_end; mem = m }, b)
    c ← print_zones fuel unknown r.0.mem kernel_end r.1
    some (ready r.0.mem, c)

  pub init_pmm_logged : ℕ → ℕ → ℕ → Memory → ℕ → Line → Option (Boot × Line)
  init_pmm_logged kernel_start kernel_end offset m b l = do
    a ← say fuel unknown (codes "[pmm]: init_pmm()\n") [] l
    if bit_and (mbt_flags m b) mbt_flag_is_mmap == 0
        then (say fuel unknown (codes "[PMM] : No memory map available\n") [] a >>= λ c.
            some (aborted, c))
        else do
          let first = u32 (mbt_mmap_addr m b + offset)
          let limit = u32 (u32 (mbt_mmap_addr m b + mbt_mmap_length m b) + offset)
          s ←
              while_some fuel (λ t. ltb t.0.section limit) (scan_section_logged kernel_end)
                (record { section = first; zone = 0; size = 0; mem = m }, a)
          c ←
              say fuel unknown (codes "PMM strucutres take %d bytes\n")
                (word_argument s.0.size ∷ []) s.1
          let res_start = u32 (kernel_start + 2 ^ 32 - offset)
          let res_end = u32 (u32 (kernel_end + 2 ^ 32 - offset) + 2 ^ 32 - 1 + s.0.size)
          reserve_logged kernel_end res_start res_end s.0.mem c
