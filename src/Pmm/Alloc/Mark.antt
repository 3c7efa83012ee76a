-- ===== src/Pmm/Alloc/Mark.antt =====
-- What `pmm_alloc` and `pmm_free` of lumos/arch/i386/pmm.c write once they have chosen a block.
use osd.Base.{ℕ, ◌+◌, ◌-◌, ◌^◌, ◌≤◌, ◌<◌, u32, Memory, IsWords, ◌==◌, if◌then◌else◌}
use osd.Base.{Bool, true, false, List, ◌≡◌, ◌≢◌, ◌⊎◌, arith, ◌∙◌}
use osd.Pmm.Bitmap.{word_addr, test_bit}
use osd.Pmm.Bitmap.Single.{set_bit-IsBitWrite, unset_bit-IsBitWrite, test_bit_frame}
use osd.Pmm.Zone.{zone_free, zone_bitmap, zone_length, zone_limit}
use osd.Pmm.Zone.{IsZone, IsZone-bounds, Zones}
use osd.Pmm.Zone.Frame.{In, Zones-update}
use osd.Pmm.Alloc.{mark_used, mark_free}

-- Bit `i` of the zone's map is written as `v`, the zone's counter as `count`, and nothing else.
pub record IsMarked (v : Bool) (count : ℕ) (m : Memory) (z i : ℕ) (m' : Memory) : Type 0 where
  pub bits :
      (j : ℕ)
      → test_bit m' (zone_bitmap m z) j ≡ (if j == i then v else test_bit m (zone_bitmap m z) j)
  pub counted : zone_free m' z ≡ count
  pub others : (a : ℕ) → a ≢ z + 12 → a ≢ word_addr (zone_bitmap m z) i → m' a ≡ m a
  pub words : IsWords m'

module _ (m : Memory) (w : IsWords m) (z i : ℕ) (zone : IsZone m z) where
  pub mark_used-IsMarked : IsMarked true (u32 (zone_free m z + 2 ^ 32 - 1)) m z i (mark_used m z i)
  unfolding mark_used
  mark_used-IsMarked =
      let b = set_bit-IsBitWrite m (zone_bitmap m z) i w in
      record {
        bits =
            λ j. test_bit_frame _ _ (zone_bitmap m z) j (ground (arith, zone.bitmap_at)) ∙ b.bits j;
        counted = ground (arith, b.others (z + 12) (omega (arith, zone.bitmap_at)));
        others = λ a p q. ground (arith, b.others a q);
        words = λ a. ground (arith, b.words a);
      }

  pub mark_free-IsMarked : IsMarked false (u32 (zone_free m z + 1)) m z i (mark_free m z i)
  unfolding mark_free
  mark_free-IsMarked =
      let b = unset_bit-IsBitWrite m (zone_bitmap m z) i w in
      record {
        bits =
            λ j. test_bit_frame _ _ (zone_bitmap m z) j (ground (arith, zone.bitmap_at)) ∙ b.bits j;
        counted = ground (arith, b.others (z + 12) (omega (arith, zone.bitmap_at)));
        others = λ a p q. ground (arith, b.others a q);
        words = λ a. ground (arith, b.words a);
      }

-- Marking a block of a zone leaves it a zone, and the list a list of zones.
module _ {v : Bool} {count : ℕ} {m m' : Memory} {z i : ℕ} (k : IsMarked v count m z i m')
    (zone : IsZone m z) (block : i < zone_length m z) where
  same_field : (d : ℕ) → d < 32 → d ≢ 12 → m' (z + d) ≡ m (z + d)
  same_field d lt ne = k.others (z + d) (omega arith) (omega (arith, zone.bitmap_at))

  pub same_outside : (a : ℕ) → (a < z) ⊎ (zone_limit m z ≤ a) → m' a ≡ m a
  same_outside a far = k.others a (omega arith) (omega (arith, zone.bitmap_at, IsZone-bounds zone))

  pub same_start : m' z ≡ m z
  same_start = k.others z (omega arith) (omega (arith, zone.bitmap_at))

  pub IsMarked-IsZone : IsZone m' z
  IsMarked-IsZone =
      let at = same_field 24 (omega arith) (omega arith) in
      let len = same_field 8 (omega arith) (omega arith) in
      let words = same_field 20 (omega arith) (omega arith) in
      record {
        not_null = zone.not_null;
        bitmap_at = at ∙ zone.bitmap_at;
        bitmap_fits = ground (arith, zone.bitmap_fits, len, words);
        hint = same_field 16 (omega arith) (omega arith) ∙ zone.hint;
        below_4g = omega (arith, zone.below_4g, same_start, len);
        in_order =
            omega (arith, zone.in_order, same_start, same_field 4 (omega arith) (omega arith));
        padding = λ j p q.
            rw at (ground (arith, k.bits j, zone.padding j (omega arith) (omega arith), len));
      }

  pub IsMarked-Zones : (p : ℕ) (zs : List ℕ) → Zones m p zs → In z zs → Zones m' p zs
  IsMarked-Zones p zs l found =
      Zones-update m m' p z zs l found same_outside IsMarked-IsZone
        (same_field 28 (omega arith) (omega arith)) (same_field 20 (omega arith) (omega arith))
