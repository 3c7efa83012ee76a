-- ===== src/Pmm/Alloc.antt =====
-- `pmm_alloc`, `pmm_alloc2` and `pmm_free` of lumos/arch/i386/pmm.c. Each returns the new memory;
-- `none` means that a loop runs for more than `fuel` rounds, and the null pointer is 0.
pub mod Search
pub mod Spec
pub mod Mark
pub mod Laws
pub mod Free
use osd.Base.{ℕ, ◌+◌, ◌-◌, ◌^◌, u32, full_word, Memory, store, while, Option, none, some, ◌>>=◌}
use osd.Base.{ltb, leb, ◌==◌, not, ◌&&◌, if◌then◌else◌}
use osd.Pmm.Bitmap.{word, word_addr, set_bit, unset_bit, test_bit}
use osd.Pmm.Zone.{zone_start, zone_end, zone_length, zone_free, zone_last_offset, zone_bitmap}
use osd.Pmm.Zone.{zone_next, block_size, get_offset, get_address}

module _ (fuel : ℕ) (m : Memory) where
  -- The first zone with free blocks.
  unfoldable pub find_free_zone : ℕ → Option ℕ
  find_free_zone zones =
      while fuel (λ p. not (p == 0) && (zone_free m p == 0)) (λ p. zone_next m p) zones

  -- The first word with an unset bit.
  unfoldable pub find_word : ℕ → ℕ → Option ℕ
  find_word z i =
      while fuel (λ k. (m (word_addr (zone_bitmap m z) k) == full_word) && ltb k (zone_length m z))
        (λ k. u32 (k + word)) i

  -- The first unset bit in the word.
  unfoldable pub find_bit : ℕ → ℕ → ℕ → Option ℕ
  find_bit z end i =
      while fuel (λ k. ltb k end && test_bit m (zone_bitmap m z) k) (λ k. u32 (k + 1)) i

-- Sets block `i` of zone `z` to used, and counts it.
unfoldable pub mark_used : Memory → ℕ → ℕ → Memory
mark_used m z i =
    let m' = set_bit m (zone_bitmap m z) i in store m' (z + 12) (u32 (zone_free m' z + 2 ^ 32 - 1))

unfoldable pub mark_free : Memory → ℕ → ℕ → Memory
mark_free m z i =
    let m' = unset_bit m (zone_bitmap m z) i in store m' (z + 12) (u32 (zone_free m' z + 1))

-- The rest of `pmm_alloc`, from the search for a word on, which begins at block `first`.
pub alloc_in : ℕ → Memory → ℕ → ℕ → Option (ℕ × Memory)
alloc_in fuel m z first = do
  i ← find_word fuel m z first
  if leb (zone_length m z) i then some (0, m) else do
    let end = u32 (i + 32)
    j ← find_bit fuel m z end i
    let m' = mark_used m z j
    if leb end j then some (0, m) else some (get_address (zone_start m' z) j block_size, m')

pub pmm_alloc : ℕ → Memory → ℕ → Option (ℕ × Memory)
pmm_alloc fuel m zones = do
  z ← find_free_zone fuel m zones
  if z == 0 then some (0, m) else alloc_in fuel m z (zone_last_offset m z)

-- `pmm_alloc2` has a text of its own, with its own loops, and begins each search at block 0.
pub pmm_alloc2 : ℕ → Memory → ℕ → Option (ℕ × Memory)
pmm_alloc2 fuel m zones = do
  z ← while fuel (λ p. not (p == 0) && (zone_free m p == 0)) (λ p. zone_next m p) zones
  if z == 0 then some (0, m) else do
    i ←
        while fuel
          (λ k. (m (word_addr (zone_bitmap m z) k) == full_word) && ltb k (zone_length m z))
          (λ k. u32 (k + word)) 0
    if leb (zone_length m z) i then some (0, m) else do
      let end = u32 (i + 32)
      j ← while fuel (λ k. ltb k end && test_bit m (zone_bitmap m z) k) (λ k. u32 (k + 1)) i
      let a = set_bit m (zone_bitmap m z) j
      let b = store a (z + 12) (u32 (zone_free a z + 2 ^ 32 - 1))
      if leb end j then some (0, m) else some (get_address (zone_start b z) j block_size, b)

-- The loop that looks for the zone of `addr`, with its test as the source has it.
pub find_zone : ℕ → Memory → ℕ → ℕ → Option ℕ
find_zone fuel m zones addr =
    while fuel (λ p. not (p == 0) && (ltb addr (zone_start m p) && ltb (zone_end m p) addr))
      (λ p. zone_next m p) zones

pub pmm_free : ℕ → Memory → ℕ → ℕ → Option Memory
pmm_free fuel m zones addr = do
  z ← find_zone fuel m zones addr
  if z == 0 then some m else some (mark_free m z (get_offset (zone_start m z) addr block_size))
