-- ===== src/Pmm/Init.antt =====
-- `init_pmm` of lumos/arch/i386/pmm.c, without its debug output. The memory map that the boot loader
-- passes on and the zones that the function builds lie in one memory.
pub mod Place
pub mod Layout
pub mod Sections
pub mod Kernel
pub mod Booted
use osd.Base.{
  ℕ, ◌+◌, ◌-◌, ◌*◌, ◌/◌, ◌^◌, bit_and, u32, Memory, store, while_some, Option, some, ◌>>=◌,
}
use osd.Base.{Bool, ltb, leb, ◌==◌, not, ◌&&◌, ◌||◌, if◌then◌else◌}
use osd.Pmm.Bitmap.{word, set_bit, set_bits, unset_bits}
use osd.Pmm.Zone.{
  zone_start, zone_end, zone_length, zone_bitmap_words, zone_bitmap, zone_next, zone_size, ceil,
  block_size, get_offset,
}

-- `MBT_FLAG_IS_MMAP`
abbrev pub mbt_flag_is_mmap : ℕ
mbt_flag_is_mmap = 0x40

-- The fields of the multiboot structure at address `b` that the function reads.
module _ (m : Memory) (b : ℕ) where
  abbrev pub mbt_flags : ℕ
  mbt_flags = m b

  abbrev pub mbt_mmap_length : ℕ
  mbt_mmap_length = m (b + 44)

  abbrev pub mbt_mmap_addr : ℕ
  mbt_mmap_addr = m (b + 48)

-- The fields of `struct mmap_entry_t` at address `s`, in the order of the struct.
module _ (m : Memory) (s : ℕ) where
  abbrev pub section_size : ℕ
  section_size = m s

  abbrev pub section_base_low : ℕ
  section_base_low = m (s + 4)

  abbrev pub section_base_high : ℕ
  section_base_high = m (s + 8)

  abbrev pub section_length_low : ℕ
  section_length_low = m (s + 12)

  abbrev pub section_type : ℕ
  section_type = m (s + 20)

  -- The test for sections that are passed over, and the section after this one.
  abbrev pub is_skipped : Bool
  is_skipped = section_base_low == 0 && not (section_base_high == 0) || not (section_type == 1)

  abbrev pub next_section : ℕ
  next_section = u32 (u32 (s + section_size) + 4)

-- The variables of the first loop: `section`, `current_zone`, `pmm_structures_size`, the memory.
pub record Scan : Type 0 where
  pub section : ℕ
  pub zone : ℕ
  pub size : ℕ
  pub mem : Memory

-- `sizeof(struct pm_zone_t) + current_zone->bitmapWords * 4`
abbrev pub structure_size : Memory → ℕ → ℕ
structure_size m z = u32 (zone_size + u32 (zone_bitmap_words m z * 4))

-- The assignments to the fields of the zone at `z`, in their order.
pub zone_fields : Memory → ℕ → ℕ → Memory
zone_fields m s z =
    let m1 = store m z (section_base_low m s) in
    let m2 = store m1 (z + 4) (u32 (zone_start m1 z + section_length_low m1 s + 2 ^ 32 - 1)) in
    let m3 = store m2 (z + 16) 0 in
    let m4 = store m3 (z + 8) (section_length_low m3 s / block_size) in
    let m5 = store m4 (z + 12) (zone_length m4 z) in
    let m6 = store m5 (z + 20) (ceil (zone_length m5 z) word) in
    let m7 = store m6 (z + 24) (u32 (z + zone_size)) in store m7 (z + 28) 0

-- The bitmap of the zone at `z`: blocks free, padding used, and address 0 used.
pub zone_bits : ℕ → Memory → ℕ → Option Memory
zone_bits fuel m z = do
  a ← unset_bits fuel m (zone_bitmap m z) 0 (u32 (zone_length m z + 2 ^ 32 - 1))
  let last = u32 (u32 (zone_bitmap_words a z * 32) + 2 ^ 32 - 1)
  b ← set_bits fuel a (zone_bitmap a z) (zone_length a z) last
  some (if zone_start b z == 0 then set_bit b (zone_bitmap b z) 0 else b)

-- The place of a new zone: the kernel's end, or behind the zone before, which is linked to it.
pub link_zone : ℕ → ℕ → Memory → ℕ × Memory
link_zone kernel_end zone m =
    let next = u32 (zone + structure_size m zone) in
    if zone == 0 then (kernel_end, m) else (next, store m (zone + 28) next)

module _ (fuel kernel_end : ℕ) where
  pub scan_section : Scan → Option Scan
  scan_section s =
      if is_skipped s.mem s.section
      then some (record s { section = next_section s.mem s.section })
      else (let (z, m) = link_zone kernel_end s.zone s.mem in
          zone_bits fuel (zone_fields m s.section z) z >>= λ m'. some (record {
            section = next_section m' s.section;
            zone = z;
            size = u32 (s.size + structure_size m' z);
            mem = m';
          }))

  unfoldable pub scan_sections : ℕ → Scan → Option Scan
  scan_sections limit s = while_some fuel (λ t. ltb t.section limit) scan_section s

-- The variables of the second loop.
pub record Reserve : Type 0 where
  pub zone : ℕ
  pub mem : Memory

module _ (res_start res_end : ℕ) where
  abbrev pub is_overlap : Memory → ℕ → Bool
  is_overlap m z =
      leb res_start (zone_start m z) && leb (zone_start m z) res_end
      || leb (zone_start m z) res_start && leb res_start (zone_end m z)

  -- `MAX(current_zone->start, resStart)` and `MIN(current_zone->end, resEnd)`, as offsets.
  abbrev pub start_bit : Memory → ℕ → ℕ
  start_bit m z =
      let first = if ltb res_start (zone_start m z) then zone_start m z else res_start in
      get_offset (zone_start m z) first block_size

  abbrev pub end_bit : Memory → ℕ → ℕ
  end_bit m z =
      let last = if ltb (zone_end m z) res_end then zone_end m z else res_end in
      get_offset (zone_start m z) last block_size

module _ (fuel res_start res_end : ℕ) where
  pub reserve_zone : Reserve → Option Reserve
  reserve_zone r =
      let m = r.mem in
      if is_overlap res_start res_end m r.zone
      then (set_bits fuel m (zone_bitmap m r.zone) (start_bit res_start res_end m r.zone)
            (end_bit res_start res_end m r.zone)
          >>= λ m'. some (record { zone = zone_next m' r.zone; mem = m' }))
      else some (record { zone = zone_next m r.zone; mem = m })

  unfoldable pub reserve_zones : ℕ → Memory → Option Reserve
  reserve_zones zones m =
      while_some fuel (λ r. not (r.zone == 0)) reserve_zone (record { zone = zones; mem = m })

-- How the function ends: by `abort`, or with the memory that it leaves.
pub data Boot : Type 0 where
  aborted : Boot
  ready : Memory → Boot

-- `kernel_start`, `kernel_end` and `offset` are the linker's symbols `_kernel_start`, `_kernel_end`
-- and `VIRTUAL_KERNEL_OFFSET_LD`. `none` means that a loop runs for more than `fuel` rounds.
unfoldable pub init_pmm : ℕ → ℕ → ℕ → ℕ → Memory → ℕ → Option Boot
init_pmm fuel kernel_start kernel_end offset m b =
    if bit_and (mbt_flags m b) mbt_flag_is_mmap == 0
    then some aborted
    else (let first = u32 (mbt_mmap_addr m b + offset) in
        let limit = u32 (u32 (mbt_mmap_addr m b + mbt_mmap_length m b) + offset) in
        scan_sections fuel kernel_end limit
          (record { section = first; zone = 0; size = 0; mem = m })
        >>= λ s.
            let res_start = u32 (kernel_start + 2 ^ 32 - offset) in
            let res_end = u32 (u32 (kernel_end + 2 ^ 32 - offset) + 2 ^ 32 - 1 + s.size) in
            reserve_zones fuel res_start res_end kernel_end s.mem >>= λ r. some (ready r.mem))
