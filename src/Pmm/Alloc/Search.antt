-- ===== src/Pmm/Alloc/Search.antt =====
-- What the three search loops of `pmm_alloc` in lumos/arch/i386/pmm.c find.
mod First
unfoldable pub use First.*
use osd.Base.{ℕ, zero, suc, ◌+◌, ◌-◌, ◌*◌, ◌/◌, ◌%◌, ◌^◌, ◌≤◌, ◌<◌, u32, full_word, Memory, IsWords}
use osd.Base.{while, while_lem, Ends, Option, none, some, ltb, ◌==◌, ◌&&◌}
use osd.Base.{true, false, if◌then◌else◌, List, [], ◌∷◌, ◌≡◌, ◌≢◌, inl, inr, refl, arith}
use osd.Base.{Bool-cases, ap, length}
use native.Mathlib.Decide.{dec_lt}
use osd.Base.Bits.{bit-ones, bit_ext}
use osd.Pmm.Bitmap.{word_addr, test_bit}
use osd.Pmm.Bitmap.Single.{test_bit_lem}
use osd.Pmm.Zone.{
  zone_length, zone_free, zone_bitmap, zone_bitmap_words, zone_next, IsZone, IsZone-bounds, Zones,
}
use osd.Pmm.Zone.Frame.{In, In-IsZone}
use osd.Pmm.Alloc.{find_free_zone, find_word, find_bit}

pub find_free_zone_lem :
    (fuel : ℕ) (m : Memory) (p : ℕ) (zs : List ℕ)
    → Zones m p zs
    → length zs < fuel
    → find_free_zone fuel m p ≡ some (or_null (first_zone m zs))
unfolding find_free_zone while first_zone
find_free_zone_lem zero m p zs l f = absurd (omega arith)
find_free_zone_lem (suc fuel) m p [] l f = rw l
find_free_zone_lem (suc fuel) m p (z ∷ zs) l f =
    let rest = find_free_zone_lem fuel m (zone_next m z) zs l.3 (omega arith) in
    ground (arith, l.1.not_null)

-- All bits below `i` are set, `i` being at a word boundary within the map.
pub record AtWord (m : Memory) (z i : ℕ) : Type 0 where
  pub aligned : i % 32 ≡ 0
  pub inside : i ≤ zone_bitmap_words m z * 32
  pub set_below : AllSet m (zone_bitmap m z) 0 i

full_word-AllSet :
    (m : Memory) (map i : ℕ)
    → i % 32 ≡ 0
    → m (word_addr map i) ≡ full_word
    → AllSet m map i (i + 32)
full_word-AllSet m map i aligned full j lo hi =
    let same : j / 32 ≡ i / 32 = omega arith in
    rw (test_bit_lem, same, full, bit-ones 32) (ground arith)

-- A word whose 32 bits are set has the value that the code compares it with.
AllSet-full_word :
    (m : Memory) (map i : ℕ)
    → IsWords m
    → i % 32 ≡ 0
    → AllSet m map i (i + 32)
    → m (word_addr map i) ≡ full_word
AllSet-full_word m map i w aligned all =
    bit_ext 32 (m (word_addr map i)) full_word (w _) (omega arith) λ k lt.
      let here : (i + k) % 32 ≡ k = omega arith in
      let same : (i + k) / 32 ≡ i / 32 = omega arith in
      let set = rw (test_bit_lem, here, same) at (all (i + k) (omega arith) (omega arith)) in
      ground (arith, set, bit-ones 32 k)

module _ (fuel : ℕ) (m : Memory) (z : ℕ) (w : IsWords m) (zone : IsZone m z) where
  abbrev pub map_of : ℕ
  map_of = zone_bitmap m z

  abbrev pub bits_of : ℕ
  bits_of = zone_bitmap_words m z * 32

  pub find_word_lem :
      bits_of + 64 < fuel
      → Ends
          (AtWord m z)
          (λ k. (m (word_addr map_of k) == full_word) && ltb k (zone_length m z))
          (find_word fuel m z 0)
  unfolding find_word
  find_word_lem f =
      while_lem (AtWord m z) (λ k. bits_of - k) _ _
        (λ k h t.
          let below : k < zone_length m z = ground arith in
          let full : m (word_addr map_of k) ≡ full_word = ground arith in
          let e : u32 (k + 32) ≡ k + 32 = omega (arith, IsZone-bounds zone) in
          rw e (
            record {
              aligned = omega arith;
              inside = omega (arith, IsZone-bounds zone);
              set_below = λ j p q.
                  ground (arith, h.set_below j, full_word-AllSet m map_of k h.aligned full j);
            },
            omega (arith, IsZone-bounds zone),
          ))
        fuel 0 (omega arith)
        (record {
          aligned = omega arith;
          inside = omega arith;
          set_below = λ j p q. absurd (omega arith);
        })

  -- The bits from the word boundary `i` up to `k` are set.
  abbrev pub Scanned : ℕ → ℕ → Type 0
  Scanned i k = (i ≤ k) × (k ≤ i + 32) × AllSet m map_of i k

  pub find_bit_lem :
      (i : ℕ)
      → i + 33 < 2 ^ 32
      → 64 < fuel
      → Ends (Scanned i) (λ k. ltb k (i + 32) && test_bit m map_of k) (find_bit fuel m z (i + 32) i)
  unfolding find_bit
  find_bit_lem i top f =
      while_lem (Scanned i) (λ k. i + 32 - k) _ _
        (λ k h t.
          let below : k < i + 32 = ground arith in
          let set : test_bit m map_of k ≡ true = ground arith in
          let e : u32 (k + 1) ≡ k + 1 = omega arith in
          rw e ((omega arith, omega arith, λ j p q. ground (arith, h.2 j)), omega arith))
        fuel i (omega arith) (omega arith, omega arith, λ j p q. absurd (omega arith))

  -- From a word boundary where the first loop stopped inside the zone, the second ends at the least
  -- unset bit of the whole map, which is a block.
  pub found :
      (i j : ℕ)
      → AtWord m z i
      → (m (word_addr map_of i) == full_word) && ltb i (zone_length m z) ≡ false
      → i < zone_length m z
      → Scanned i j
      → ltb j (i + 32) && test_bit m map_of j ≡ false
      → (j < zone_length m z) × (test_bit m map_of j ≡ false) × AllSet m map_of 0 j × (j < i + 32)
  found i j at stop below scanned stop' = (
    ground (arith, zone.padding j, in_bits, clear),
    clear,
    λ k p q. ground (arith, at.set_below k, scanned.2 k),
    in_word,
  )
    where
      not_full : m (word_addr map_of i) ≢ full_word
      not_full e = ground arith

      in_word : j < i + 32
      in_word = elim (dec_lt j (i + 32)) [
        | yes p ↦ p
        | no p ↦ absurd (
            not_full
              (AllSet-full_word m map_of i w at.aligned (λ k lo hi. scanned.2 k lo (omega arith))))
      ]

      clear : test_bit m map_of j ≡ false
      clear = ground (arith, in_word)

      in_bits : j < bits_of
      in_bits = omega (arith, IsZone-bounds zone, in_word, at.aligned)
