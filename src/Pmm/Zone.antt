-- ===== src/Pmm/Zone.antt =====
-- `struct pm_zone_t` of lumos/include/lumos/pmm.h as it lies in memory, and the list of zones.
pub mod Frame
use osd.Base.{
  ℕ, ◌+◌, ◌-◌, ◌*◌, ◌/◌, ◌%◌, ◌^◌, ◌≤◌, ◌<◌, u32, Memory, ◌≡◌, ◌≢◌, ◌⊎◌, true, List, [], ◌∷◌,
}
use osd.Base.{if◌then◌else◌, ◌==◌, arith}
use osd.Pmm.Bitmap.{test_bit, word}

abbrev pub block_size : ℕ
block_size = 4096

-- The fields of the zone at address `z`, in the order of the struct.
module _ (m : Memory) (z : ℕ) where
  abbrev pub zone_start : ℕ
  zone_start = m z

  abbrev pub zone_end : ℕ
  zone_end = m (z + 4)

  abbrev pub zone_length : ℕ
  zone_length = m (z + 8)

  abbrev pub zone_free : ℕ
  zone_free = m (z + 12)

  abbrev pub zone_last_offset : ℕ
  zone_last_offset = m (z + 16)

  abbrev pub zone_bitmap_words : ℕ
  zone_bitmap_words = m (z + 20)

  abbrev pub zone_bitmap : ℕ
  zone_bitmap = m (z + 24)

  abbrev pub zone_next : ℕ
  zone_next = m (z + 28)

  -- The first address behind the zone's bitmap.
  abbrev pub zone_limit : ℕ
  zone_limit = z + 32 + 4 * zone_bitmap_words

-- `sizeof(struct pm_zone_t)`
abbrev pub zone_size : ℕ
zone_size = 32

-- `CEIL`, `GET_OFFSET` and `GET_ADDRESS`
abbrev pub ceil : ℕ → ℕ → ℕ
ceil x y = x / y + (if x % y == 0 then 0 else 1)

abbrev pub get_offset : ℕ → ℕ → ℕ → ℕ
get_offset start target size = u32 (target + 2 ^ 32 - start) / size

abbrev pub get_address : ℕ → ℕ → ℕ → ℕ
get_address start offset size = u32 (u32 (offset * size) + start)

-- A zone as `init_pmm` lays it out: the bitmap follows the struct, has a bit for each block, and
-- the bits past the last block are set; the blocks lie below 4 GiB.
pub record IsZone (m : Memory) (z : ℕ) : Type 0 where
  pub not_null : z ≢ 0
  pub bitmap_at : zone_bitmap m z ≡ z + zone_size
  pub bitmap_fits : zone_bitmap_words m z ≡ ceil (zone_length m z) word
  pub hint : zone_last_offset m z ≡ 0
  pub below_4g : zone_start m z + zone_length m z * block_size ≤ 2 ^ 32
  pub in_order : zone_start m z ≤ zone_end m z
  pub padding :
      (j : ℕ)
      → zone_length m z ≤ j
      → j < zone_bitmap_words m z * 32
      → test_bit m (zone_bitmap m z) j ≡ true

pub ceil_bounds : (x : ℕ) → (x ≤ ceil x 32 * 32) × (ceil x 32 * 32 < x + 32)
ceil_bounds x = ground arith

-- The bitmap has a bit for each block, fewer than 32 to spare, and about a million at most.
pub IsZone-bounds :
    {m : Memory} {z : ℕ}
    → IsZone m z
    → (zone_length m z ≤ zone_bitmap_words m z * 32)
      × (zone_bitmap_words m z * 32 < zone_length m z + 32)
      × (zone_length m z ≤ 2 ^ 20)
IsZone-bounds {m} {z} v = omega (arith, v.bitmap_fits, v.below_4g, ceil_bounds (zone_length m z))

-- The zones of the linked list that starts at `p`, each right behind the one before it.
abbrev pub Zones : Memory → ℕ → List ℕ → Type 0
Zones m p [] = p ≡ 0
Zones m p (z ∷ zs) =
    (p ≡ z)
    × IsZone m z
    × ((zone_next m z ≡ 0) ⊎ (zone_next m z ≡ zone_limit m z))
    × Zones m (zone_next m z) zs
