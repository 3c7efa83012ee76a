-- ===== src/Pmm/Alloc/Free.antt =====
-- `pmm_free` of lumos/arch/i386/pmm.c: which zone it takes, and the round trip with `pmm_alloc`.
use osd.Base.{ℕ, ◌+◌, ◌-◌, ◌*◌, ◌^◌, ◌<◌, u32, Memory, IsWords, ◌==◌}
use osd.Base.{
  true, false, List, length, ◌∷◌, ◌≡◌, ◌≢◌, inl, inr, arith, ◌∙◌, Option, some, none, sym,
}
use osd.Base.{fun_ext, while_stop, ap}
use native.Mathlib.Decide.{ℕ_discrete}
use osd.Pmm.Bitmap.{test_bit, word_addr}
use osd.Pmm.Bitmap.Single.{test_bit_ext}
use osd.Pmm.Zone.{
  zone_start, zone_free, zone_length, zone_bitmap, block_size, get_offset, IsZone, Zones,
}
use osd.Pmm.Alloc.{pmm_alloc, pmm_free, find_zone, mark_free}
use osd.Pmm.Alloc.Mark.{IsMarked, mark_free-IsMarked, same_start}
use osd.Pmm.Alloc.Search.{first_zone-cons}
use osd.Pmm.Alloc.Laws.{Allocated, pmm_alloc-Ended}

module _ (fuel : ℕ) (m : Memory) (p z : ℕ) (zs : List ℕ) (l : Zones m p (z ∷ zs))
    (positive : 0 < fuel) (addr : ℕ) where
  -- The loop's test asks for an address below the start and above the end, so it never passes.
  pub find_zone-first : find_zone fuel m p addr ≡ some p
  unfolding find_zone
  find_zone-first = while_stop fuel _ _ p positive (ground (arith, l.1.in_order, l.0))

  pub pmm_free_lem :
      pmm_free fuel m p addr ≡ some (mark_free m z (get_offset (zone_start m z) addr block_size))
  unfolding pmm_free
  pmm_free_lem =
      let real : z == 0 ≡ false = ground (arith, l.1.not_null) in rw (find_zone-first, l.0, real)

  -- On a memory of 32-bit words with a well-formed list of at least one zone, and with any fuel but
  -- 0, `pmm_free` returns and works on the first zone, whatever the address. With the distance of the
  -- address from that zone's start, in blocks and modulo 2 ^ 32 bytes, as the offset, it clears the
  -- bit at that offset from the start of that zone's bitmap, which can lie past the end of the map
  -- for an address outside the zone; it raises that zone's count of free blocks by one, modulo
  -- 2 ^ 32; and no other bit from the bitmap's start on and no other word of the memory changes.
  pub pmm_free-first_zone :
      IsWords m
      → (m' : Memory) × (pmm_free fuel m p addr ≡ some m')
        × IsMarked false
            (u32 (zone_free m z + 1))
            m
            z
            (get_offset (zone_start m z) addr block_size)
            m'
  pmm_free-first_zone w = (
    mark_free m z (get_offset (zone_start m z) addr block_size),
    pmm_free_lem,
    mark_free-IsMarked m w z (get_offset (zone_start m z) addr block_size) l.1,
  )

abbrev or_reply : Option (ℕ × Memory) → ℕ × Memory
or_reply none = (0, λ a. 0)
or_reply (some r) = r

module _ (fuel : ℕ) (m : Memory) (w : IsWords m) (enough : 2 ^ 20 + 128 < fuel) (p z : ℕ)
    (zs : List ℕ) (l : Zones m p (z ∷ zs)) (few : length (z ∷ zs) < fuel) where
  -- What `pmm_free` clears again is the block that was handed out.
  restored :
      (i : ℕ) (a b : Memory)
      → IsZone m z
      → zone_free m z ≢ 0
      → test_bit m (zone_bitmap m z) i ≡ false
      → IsMarked true (zone_free m z - 1) m z i a
      → IsMarked false (u32 (zone_free a z + 1)) a z i b
      → zone_bitmap a z ≡ zone_bitmap m z
      → b ≡ m
  restored i a b zone ne clear ka kb at = fun_ext λ x. elim (ℕ_discrete x (z + 12)) [
    | yes e ↦ rw e (kb.counted ∙ omega (arith, ka.counted, w (z + 12)))
    | no ne ↦ elim (ℕ_discrete x (word_addr (zone_bitmap m z) i)) [
      | yes e ↦ rw e (
          test_bit_ext m b (zone_bitmap m z) i w kb.words
            λ j. ground (arith, rw at at (kb.bits j), ka.bits j))
      | no off ↦ kb.others x ne (rw at off) ∙ ka.others x ne off
    ]
  ]

  returned :
      (addr : ℕ) (a : Memory)
      → zone_free m z ≢ 0
      → Allocated m (z ∷ zs) addr a
      → Zones a p (z ∷ zs)
      → IsWords a
      → pmm_free fuel a p addr ≡ some m
  returned addr a ne d la wa =
      let head : d.zone ≡ z = ground (arith, d.chosen, first_zone-cons m z zs ne) in
      let ka : IsMarked true (zone_free m z - 1) m z d.block a = rw head at d.marked in
      let below : d.block < zone_length m z = rw head at d.in_zone in
      let clear : test_bit m (zone_bitmap m z) d.block ≡ false = rw head at d.was_free in
      let from : addr ≡ zone_start m z + d.block * block_size = rw head at d.address in
      let offset : get_offset (zone_start a z) addr block_size ≡ d.block =
        omega (arith, same_start ka l.1 below, l.1.below_4g) in
      let kb = mark_free-IsMarked a wa z d.block la.1 in
      let same_map : zone_bitmap a z ≡ zone_bitmap m z = la.1.bitmap_at ∙ sym l.1.bitmap_at in
      rw (pmm_free_lem fuel a p z zs la (omega arith) addr, offset)
        (ap some (restored d.block a _ l.1 ne clear ka kb same_map))

  -- On a memory of 32-bit words with a well-formed list of zones, and with fuel above 2 ^ 20 +
  -- 128 and above the number of zones: where the first zone counts a free block, and `pmm_alloc` hands out an address that is not null, freeing that
  -- address gives back the whole memory as it was before the allocation.
  pub pmm_free-pmm_alloc :
      (addr : ℕ) (m' : Memory)
      → zone_free m z ≢ 0
      → pmm_alloc fuel m p ≡ some (addr, m')
      → addr ≢ 0
      → pmm_free fuel m' p addr ≡ some m
  pmm_free-pmm_alloc addr m' ne call got =
      let e = pmm_alloc-Ended fuel m w enough p (z ∷ zs) l few in
      let pair : some (addr, m') ≡ some (e.addr, e.mem) = sym call ∙ e.returns in
      let same_addr : addr ≡ e.addr = ap (λ o. (or_reply o).0) pair in
      let same_mem : m' ≡ e.mem = ap (λ o. (or_reply o).1) pair in
      elim e.outcome [
        | inl nothing ↦ absurd (got (same_addr ∙ nothing.0))
        | inr d ↦ rw (same_addr, same_mem) (returned e.addr e.mem ne d e.zones e.words)
      ]
