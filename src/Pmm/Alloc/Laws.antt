-- ===== src/Pmm/Alloc/Laws.antt =====
-- What callers of `pmm_alloc` and `pmm_alloc2` (lumos/arch/i386/pmm.c) rely on.
use osd.Base.{ℕ, ◌+◌, ◌-◌, ◌*◌, ◌^◌, ◌<◌, u32, Memory, IsWords}
use osd.Base.{
  true, false, List, length, ◌≡◌, ◌≢◌, ◌⊎◌, inl, inr, refl, arith, Option, some, Option-cases, sym,
  ◌∙◌,
}
use osd.Pmm.Bitmap.{test_bit}
use osd.Pmm.Zone.{zone_start, zone_free, zone_length, zone_bitmap, block_size, get_address, Zones}
use osd.Pmm.Zone.Frame.{In}
use osd.Pmm.Alloc.{pmm_alloc, pmm_alloc2, mark_used}
use osd.Pmm.Alloc.Search.{first_zone, first_zone_lem, first_zone-IsZone, first_zone-none}
use osd.Pmm.Alloc.Search.{first_clear, first_clear_sound, first_clear_complete, AllSet}
use osd.Pmm.Alloc.Spec.{pmm_alloc_lem, pmm_alloc2_lem, alloc_spec, reply}
use osd.Pmm.Alloc.Mark.{IsMarked, mark_used-IsMarked, IsMarked-Zones, same_start}

-- A block handed out: it was free, and all that has changed is its bit and its zone's counter.
pub record Allocated (m : Memory) (zs : List ℕ) (addr : ℕ) (m' : Memory) : Type 0 where
  pub zone : ℕ
  pub block : ℕ
  pub chosen : first_zone m zs ≡ some zone
  pub listed : In zone zs
  pub in_zone : block < zone_length m zone
  pub was_free : test_bit m (zone_bitmap m zone) block ≡ false
  pub lowest : AllSet m (zone_bitmap m zone) 0 block
  pub address : addr ≡ zone_start m zone + block * block_size
  pub marked : IsMarked true (zone_free m zone - 1) m zone block m'

-- Nothing to hand out: each counter is 0, or a zone whose counter is not 0 has no unset bit.
abbrev pub Exhausted : Memory → List ℕ → Type 0
Exhausted m zs =
    ((z : ℕ) → In z zs → zone_free m z ≡ 0)
    ⊎ ((z : ℕ) × In z zs × (zone_free m z ≢ 0) × AllSet m (zone_bitmap m z) 0 (zone_length m z))

-- How a call of `pmm_alloc` ends. In both cases the list of zones is as sound as before.
pub record Ended (m : Memory) (p : ℕ) (zs : List ℕ) (r : Option (ℕ × Memory)) : Type 0 where
  pub addr : ℕ
  pub mem : Memory
  pub returns : r ≡ some (addr, mem)
  pub outcome : ((addr ≡ 0) × (mem ≡ m) × Exhausted m zs) ⊎ Allocated m zs addr mem
  pub zones : Zones mem p zs
  pub words : IsWords mem

module _ (fuel : ℕ) (m : Memory) (w : IsWords m) (enough : 2 ^ 20 + 128 < fuel) (p : ℕ)
    (zs : List ℕ) (l : Zones m p zs) (few : length zs < fuel) where
  -- A successful search ends the call with the block marked.
  taken :
      (z i : ℕ)
      → first_zone m zs ≡ some z
      → first_clear m (zone_bitmap m z) (zone_length m z) 0 ≡ some i
      → Ended m p zs (some (reply m z (some i)))
  taken z i e n =
      let zone = first_zone-IsZone m p zs z l e in
      let counts = first_zone_lem m p zs z e in
      let c = first_clear_sound m (zone_bitmap m z) (zone_length m z) 0 i n in
      let below : i < zone_length m z = omega (arith, c.1) in
      let k = mark_used-IsMarked m w z i zone in
      let less : u32 (zone_free m z + 2 ^ 32 - 1) ≡ zone_free m z - 1 =
        omega (arith, w (z + 12), counts.1) in
      let start : mark_used m z i z ≡ m z = same_start k zone below in
      record {
        addr = get_address (mark_used m z i z) i block_size;
        mem = mark_used m z i;
        returns = refl;
        zones = IsMarked-Zones k zone below p zs l counts.0;
        words = k.words;
        outcome = inr (record {
          zone = z;
          block = i;
          chosen = e;
          listed = counts.0;
          in_zone = below;
          was_free = c.2;
          lowest = c.3;
          address = rw start (omega (arith, zone.below_4g));
          marked = rw less at k;
        });
      }

  unchanged : Exhausted m zs → Ended m p zs (some (0, m))
  unchanged none_left = record {
    addr = 0;
    mem = m;
    returns = refl;
    zones = l;
    words = w;
    outcome = inl (refl, refl, none_left);
  }

  searched :
      (z : ℕ)
      → first_zone m zs ≡ some z
      → Ended m p zs (some (reply m z (first_clear m (zone_bitmap m z) (zone_length m z) 0)))
  searched z e = elim (Option-cases (first_clear m (zone_bitmap m z) (zone_length m z) 0)) [
    | inl n ↦
        let counts = first_zone_lem m p zs z e in
        let all = first_clear_complete m (zone_bitmap m z) (zone_length m z) 0 n in
        rw n (unchanged (inr (z, counts.0, counts.1, λ j a b. all j a (omega arith))))
    | inr (i, n) ↦ rw n (taken z i e n)
  ]

  -- The specification of an allocation, by what it finds.
  alloc_spec-Ended : Ended m p zs (some (alloc_spec m zs))
  alloc_spec-Ended = elim (Option-cases (first_zone m zs)) [
    | inl e ↦ rw e (unchanged (inl (λ z i. first_zone-none m zs z e i)))
    | inr (z, e) ↦ rw e (searched z e)
  ]

  -- On a memory of 32-bit words with a well-formed list of zones, and fuel above 2 ^ 20 + 128 and
  -- above the number of zones, `pmm_alloc` returns. Either it hands out the null pointer, changes
  -- nothing, and there is nothing to hand out in the zone that it looks at; or it hands out the
  -- lowest unused block of a zone, marks that block alone as used, and counts it.
  pub pmm_alloc-Ended : Ended m p zs (pmm_alloc fuel m p)
  pmm_alloc-Ended = rw (pmm_alloc_lem fuel m w enough p zs l few) alloc_spec-Ended

  -- On a memory of 32-bit words with a well-formed list of zones, and fuel above 2 ^ 20 + 128 and
  -- above the number of zones, `pmm_alloc2` returns. Either it hands out the null pointer, changes
  -- nothing, and there is nothing to hand out in the zone that it looks at; or it hands out the
  -- lowest unused block of a zone, marks that block alone as used, and counts it. Its result and its
  -- memory are those of `pmm_alloc`.
  pub pmm_alloc2-Ended :
      Ended m p zs (pmm_alloc2 fuel m p) × (pmm_alloc2 fuel m p ≡ pmm_alloc fuel m p)
  pmm_alloc2-Ended =
      let second = pmm_alloc2_lem fuel m w enough p zs l few in
      (rw second alloc_spec-Ended, second ∙ sym (pmm_alloc_lem fuel m w enough p zs l few))
