-- ===== src/Pmm/Alloc/Spec.antt =====
-- `pmm_alloc` and `pmm_alloc2` of lumos/arch/i386/pmm.c against what they are to compute.
use osd.Base.{ℕ, ◌+◌, ◌*◌, ◌/◌, ◌^◌, ◌<◌, u32, Memory, IsWords, Option, none, some, List, length}
use osd.Base.{leb, ◌==◌, true, false, ◌⊎◌, refl, ◌≡◌, arith, ◌>>=◌, if◌then◌else◌}
use osd.Base.{Bool-cases, Option-cases, inl, inr, ap, ◌∙◌}
use osd.Pmm.Zone.{zone_start, zone_length, zone_bitmap, block_size, get_address}
use osd.Pmm.Zone.{IsZone, IsZone-bounds, Zones}
use osd.Pmm.Alloc.{find_free_zone, find_word, find_bit, alloc_in, mark_used, pmm_alloc, pmm_alloc2}
use osd.Pmm.Alloc.Search.{first_zone, first_clear, find_free_zone_lem, find_word_lem, find_bit_lem}
use osd.Pmm.Alloc.Search.{found, first_zone-IsZone, first_clear-none, first_clear-some}

-- What is to come of an allocation from block `o` of the zone, if any.
abbrev pub reply : Memory → ℕ → Option ℕ → ℕ × Memory
reply m z none = (0, m)
reply m z (some i) = let m' = mark_used m z i in (get_address (zone_start m' z) i block_size, m')

-- The null pointer if no zone counts a free block, or if the first zone that counts one has no
-- unset bit; otherwise the least unset bit of that zone is set.
abbrev pub alloc_at : Memory → Option ℕ → ℕ × Memory
alloc_at m none = (0, m)
alloc_at m (some z) = reply m z (first_clear m (zone_bitmap m z) (zone_length m z) 0)

abbrev pub alloc_spec : Memory → List ℕ → ℕ × Memory
alloc_spec m zs = alloc_at m (first_zone m zs)

module _ (fuel : ℕ) (m : Memory) (w : IsWords m) (enough : 2 ^ 20 + 128 < fuel) where
  -- What the two searches in a zone find: the word of the first clear bit, and that bit.
  pub record Searched (z : ℕ) : Type 0 where
    pub start : ℕ
    pub word_found : find_word fuel m z 0 ≡ some start
    pub outcome :
        ((leb (zone_length m z) start ≡ true)
          × (first_clear m (zone_bitmap m z) (zone_length m z) 0 ≡ none))
        ⊎ ((bit : ℕ) × (leb (zone_length m z) start ≡ false)
            × (find_bit fuel m z (u32 (start + 32)) start ≡ some bit)
            × (leb (u32 (start + 32)) bit ≡ false)
            × (first_clear m (zone_bitmap m z) (zone_length m z) 0 ≡ some bit)
            × (start ≡ bit / 32 * 32))

  pub searched : (z : ℕ) → IsZone m z → Searched z
  searched z zone =
      let a = find_word_lem fuel m z w zone (omega (arith, IsZone-bounds zone)) in
      record {
        start = a.final;
        word_found = a.returns;
        outcome = elim (Bool-cases (leb (zone_length m z) a.final)) [
          | inl past ↦ inl (
            past,
            first_clear-none m (zone_bitmap m z) (zone_length m z) 0
                (λ j p q. a.holds.set_below j p (ground arith)),
          )
          | inr before ↦
              let inside : a.final < zone_length m z = ground arith in
              let e : u32 (a.final + 32) ≡ a.final + 32 = omega (arith, IsZone-bounds zone) in
              let b =
                find_bit_lem fuel m z w zone a.final (omega (arith, IsZone-bounds zone))
                  (omega arith) in
              let f =
                found fuel m z w zone a.final b.final a.holds a.stopped inside b.holds b.stopped in
              inr (
                b.final,
                before,
                ap (λ x. find_bit fuel m z x a.final) e ∙ b.returns,
                ground (arith, f.3, e),
                first_clear-some m (zone_bitmap m z) (zone_length m z) 0 b.final (omega arith)
                    (omega (arith, f.0)) f.2 f.1,
                omega (arith, f.3, b.holds.0, a.holds.aligned),
              )
        ];
      }

  alloc_in_lem :
      (z : ℕ)
      → IsZone m z
      → alloc_in fuel m z 0 ≡ some (reply m z (first_clear m (zone_bitmap m z) (zone_length m z) 0))
  unfolding alloc_in
  alloc_in_lem z zone =
      let k = searched z zone in
      elim k.outcome [
        | inl (past, none_left) ↦ rw (k.word_found, past, none_left) refl
        | inr (bit, before, bit_found, in_word, first, word) ↦
            rw (k.word_found, before, bit_found, in_word, first) refl
      ]

  -- On a memory of 32-bit words with a well-formed list of zones, and fuel above 2 ^ 20 + 128 and
  -- above the number of zones, `pmm_alloc` returns, and returns what the specification says.
  pub pmm_alloc_lem :
      (p : ℕ) (zs : List ℕ)
      → Zones m p zs
      → length zs < fuel
      → pmm_alloc fuel m p ≡ some (alloc_spec m zs)
  unfolding pmm_alloc
  pmm_alloc_lem p zs l f = elim (Option-cases (first_zone m zs)) [
    | inl e ↦ rw (find_free_zone_lem fuel m p zs l f, e)
    | inr (z, e) ↦
        let zone = first_zone-IsZone m p zs z l e in
        let real : z == 0 ≡ false = ground (arith, zone.not_null) in
        rw (find_free_zone_lem fuel m p zs l f, e, real, zone.hint) (alloc_in_lem z zone)
  ]

  -- The search in the text of `pmm_alloc2` is the search of `pmm_alloc` from block 0 on.
  same_text :
      (p : ℕ)
      → pmm_alloc2 fuel m p
        ≡ (do z ← find_free_zone fuel m p; if z == 0 then some (0, m) else alloc_in fuel m z 0)
  unfolding pmm_alloc2 alloc_in find_free_zone find_word find_bit mark_used
  same_text p = refl

  pub pmm_alloc2_lem :
      (p : ℕ) (zs : List ℕ)
      → Zones m p zs
      → length zs < fuel
      → pmm_alloc2 fuel m p ≡ some (alloc_spec m zs)
  pmm_alloc2_lem p zs l f = elim (Option-cases (first_zone m zs)) [
    | inl e ↦ rw (same_text p, find_free_zone_lem fuel m p zs l f, e)
    | inr (z, e) ↦
        let zone = first_zone-IsZone m p zs z l e in
        let real : z == 0 ≡ false = ground (arith, zone.not_null) in
        rw (same_text p, find_free_zone_lem fuel m p zs l f, e, real) (alloc_in_lem z zone)
  ]
