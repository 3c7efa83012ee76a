-- ===== src/Pmm/Init/Place.antt =====
-- How `init_pmm` of lumos/arch/i386/pmm.c lays out one zone for a section of the memory map.
mod Fresh
pub use Fresh.*
use osd.Base.{ℕ, ◌+◌, ◌-◌, ◌*◌, ◌/◌, ◌^◌, ◌≤◌, ◌<◌, u32, Memory, IsWords, Option, some}
use osd.Base.{leb, ◌==◌, ◌&&◌, ◌||◌, Bool, true, false, if◌then◌else◌}
use osd.Base.{◌≡◌, ◌≢◌, ◌⊎◌, inl, inr, refl, arith, ◌∙◌, ap, Bool-cases}
use osd.Pmm.Bitmap.{word, test_bit, set_bit, set_bits, unset_bits}
use osd.Pmm.Bitmap.Single.{set_bit-IsBitWrite, test_bit_frame}
use osd.Pmm.Bitmap.Range.{IsFilled, Fills, set_bits-Fills, unset_bits-Fills}
use osd.Pmm.Zone.{
  zone_start, zone_end, zone_length, zone_free, zone_last_offset, zone_bitmap_words, zone_bitmap,
  zone_next, ceil, ceil_bounds, block_size,
}
use osd.Pmm.Init.{section_base_low, section_length_low, zone_fields, zone_bits}

module _ (m : Memory) (w : IsWords m) (a z : ℕ) (s : Section) (v : IsSection s)
    (base : section_base_low m a ≡ s.base) (size : section_length_low m a ≡ s.size)
    (apart : a + 24 ≤ z) (room : z + extent s < 2 ^ 32) where
  zone_fields-IsLaid : IsLaid (zone_fields m a z) z s
  unfolding zone_fields
  zone_fields-IsLaid = record {
    start = ground arith;
    end = ground (arith, v.some_block, v.within_4g);
    length = ground arith;
    free = ground arith;
    last_offset = ground arith;
    words = ground arith;
    bitmap = ground arith;
  }

  zone_fields-next : zone_next (zone_fields m a z) z ≡ 0
  unfolding zone_fields
  zone_fields-next = ground arith

  zone_fields-Inside : Inside m (zone_fields m a z) z (z + 32)
  unfolding zone_fields
  zone_fields-Inside x h = ground arith

  zone_fields-IsWords : IsWords (zone_fields m a z)
  unfolding zone_fields
  zone_fields-IsWords x = ground (arith, w x)

module _ (fuel : ℕ) (enough : 2 ^ 20 + 128 < fuel) (m : Memory) (w : IsWords m) (z : ℕ)
    (s : Section) (v : IsSection s) (laid : IsLaid m z s) (last : zone_next m z ≡ 0)
    (room : z + extent s < 2 ^ 32) where
  -- After the first two calls: the blocks are free, and the padding is set.
  record Filled (a b : Memory) : Type 0 where
    unset : unset_bits fuel m (z + 32) 0 (u32 (blocks s + 2 ^ 32 - 1)) ≡ some a
    set : set_bits fuel a (z + 32) (blocks s) (u32 (u32 (map_words s * 32) + 2 ^ 32 - 1)) ≡ some b
    laid_a : IsLaid a z s
    laid_b : IsLaid b z s
    bits : (j : ℕ) → j < map_words s * 32 → test_bit b (z + 32) j ≡ leb (blocks s) j
    inside : Inside m b (z + 32) (z + extent s)
    words : IsWords b

  unset_blocks :
      Fills false
        (z + 32)
        0
        (blocks s - 1)
        m
        (unset_bits fuel m (z + 32) 0 (u32 (blocks s + 2 ^ 32 - 1)))
  unset_blocks =
      let first : u32 (blocks s + 2 ^ 32 - 1) ≡ blocks s - 1 = omega (arith, IsSection-bounds v) in
      rw first (
        unset_bits-Fills fuel m (z + 32) 0 (blocks s - 1) (omega (arith, IsSection-bounds v))
          (omega (arith, IsSection-bounds v)) (omega arith) w)

  set_padding :
      (a : Memory)
      → IsWords a
      → Fills true
          (z + 32)
          (blocks s)
          (map_words s * 32 - 1)
          a
          (set_bits fuel a (z + 32) (blocks s) (u32 (u32 (map_words s * 32) + 2 ^ 32 - 1)))
  set_padding a wa =
      let second : u32 (u32 (map_words s * 32) + 2 ^ 32 - 1) ≡ map_words s * 32 - 1 =
        omega (arith, IsSection-bounds v) in
      rw second (
        set_bits-Fills fuel a (z + 32) (blocks s) (map_words s * 32 - 1)
          (omega (arith, IsSection-bounds v)) (omega (arith, IsSection-bounds v))
          (omega (arith, IsSection-bounds v)) wa)

  filled : (a : Memory) × (b : Memory) × Filled a b
  filled =
      let bound = IsSection-bounds v in
      let unset = unset_blocks in
      let set = set_padding unset.mem unset.filled.words in
      let inside_a = IsFilled-Inside z s (omega (arith, bound)) unset.filled in
      let inside_b = IsFilled-Inside z s (omega (arith, bound)) set.filled in
      (
        unset.mem,
        set.mem,
        record {
          unset = unset.returns;
          set = set.returns;
          laid_a = Inside-IsLaid inside_a laid;
          laid_b = Inside-IsLaid inside_b (Inside-IsLaid inside_a laid);
          bits = λ j lt. ground (arith, set.filled.bits j, unset.filled.bits j, bound);
          inside = λ x h. inside_b x h ∙ inside_a x h;
          words = set.filled.words;
        },
      )

  -- After the call for block 0, if there is one.
  null_bit : (b : Memory) → Memory
  null_bit b = if zone_start b z == 0 then set_bit b (zone_bitmap b z) 0 else b

  zone_bits-Placed : Placed m z s (zone_bits fuel m z)
  unfolding zone_bits null_bit
  zone_bits-Placed =
      let (a, b, f) = filled in
      let one = set_bit-IsBitWrite b (z + 32) 0 f.words in
      let bound = IsSection-bounds v in
      let end_ : zone_bits fuel m z ≡ some (null_bit b) =
        rw
          (
            laid.bitmap, laid.length, f.unset, f.laid_a.bitmap, f.laid_a.length, f.laid_a.words,
            f.set,
          )
          refl in
      elim (Bool-cases (s.base == 0)) [
        | inl low ↦
            let same : null_bit b ≡ set_bit b (z + 32) 0 =
              rw (f.laid_b.start, low, f.laid_b.bitmap) refl in
            record {
              mem = set_bit b (z + 32) 0;
              returns = end_ ∙ ap (λ (x : Memory). some x) same;
              fresh = record {
                laid = IsLaid-frame (λ x lo hi. one.others x (omega arith)) f.laid_b;
                bits = λ j lt. one.bits j ∙ ground (arith, f.bits j lt, low, bound);
              };
              next =
                  one.others (z + 28) (omega arith) ∙ f.inside (z + 28) (inl (omega arith)) ∙ last;
              inside = λ x h. one.others x (omega (arith, bound)) ∙ f.inside x (omega arith);
              words = one.words;
            }
        | inr high ↦
            let same : null_bit b ≡ b = rw (f.laid_b.start, high) refl in
            record {
              mem = b;
              returns = end_ ∙ ap (λ (x : Memory). some x) same;
              fresh = record { laid = f.laid_b; bits = λ j lt. ground (arith, f.bits j lt, high) };
              next = f.inside (z + 28) (inl (omega arith)) ∙ last;
              inside = λ x h. f.inside x (omega arith);
              words = f.words;
            }
      ]

-- Both steps on a place behind the section's entry in the memory map.
pub place-Placed :
    (fuel : ℕ) (m : Memory) (a z : ℕ) (s : Section)
    → 2 ^ 20 + 128 < fuel
    → IsWords m
    → IsSection s
    → section_base_low m a ≡ s.base
    → section_length_low m a ≡ s.size
    → a + 24 ≤ z
    → z + extent s < 2 ^ 32
    → Placed m z s (zone_bits fuel (zone_fields m a z) z)
place-Placed fuel m a z s enough w v base size apart room =
    let f = zone_fields m a z in
    let outside = zone_fields-Inside m w a z s v base size apart room in
    let p =
      zone_bits-Placed fuel enough f (zone_fields-IsWords m w a z s v base size apart room) z s v
        (zone_fields-IsLaid m w a z s v base size apart room)
        (zone_fields-next m w a z s v base size apart room) room in
    record {
      mem = p.mem;
      returns = p.returns;
      fresh = p.fresh;
      next = p.next;
      inside = λ x h. p.inside x h ∙ outside x (omega arith);
      words = p.words;
    }
