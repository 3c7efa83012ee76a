-- ===== src/Pmm/Init/Kernel.antt =====
-- The second loop of `init_pmm` (lumos/arch/i386/pmm.c): the blocks of the kernel are taken.
use osd.Base.{ℕ, zero, suc, ◌+◌, ◌-◌, ◌*◌, ◌/◌, ◌^◌, ◌≤◌, ◌<◌, Memory, IsWords, Option, some}
use osd.Base.{while_some, while_some-go, while_some-stop, ltb, leb, ◌==◌, not, ◌&&◌, ◌||◌}
use osd.Base.{Bool, true, false, if◌then◌else◌, ◌≡◌, ◌≢◌, ◌⊎◌, inl, inr, refl, arith, ◌∙◌, ap}
use osd.Base.{Bool-cases, List, [], ◌∷◌, length}
use osd.Pmm.Bitmap.Range.{set_bits-Fills}
use osd.Pmm.Zone.{zone_next, block_size}
use osd.Pmm.Init.{Reserve, is_overlap, start_bit, end_bit, reserve_zone, reserve_zones}
use osd.Pmm.Init.Place.{
  Section, IsSection, IsSection-bounds, blocks, extent, IsFresh, IsFresh-frame, is_null, Inside,
  IsFilled-Inside, Inside-IsLaid,
}
use osd.Pmm.Init.Layout.{AllSections, total, link_to, Laid, Laid-frame}

module _ (lo hi : ℕ) where
  -- Block `j` of the section has a byte in the range from `lo` to `hi`.
  abbrev pub meets : Section → ℕ → Bool
  meets s j = leb (s.base + j * block_size) hi && leb lo (s.base + j * block_size + 4095)

  -- The range does not reach the bytes of the section behind its last whole block.
  abbrev pub IsClear : Section → Type 0
  IsClear s = (hi < s.base) ⊎ ((s.base + s.size ≤ lo) ⊎ (hi < s.base + blocks s * block_size))

  abbrev pub is_taken : Section → ℕ → Bool
  is_taken s j = is_null s j || meets s j

  abbrev pub AllClear : List Section → Type 0
  AllClear [] = Unit {0}
  AllClear (s ∷ ss) = IsClear s × AllClear ss

  -- What the loop does from the zone at `p` on.
  pub record Taken (p : ℕ) (ss : List Section) (m : Memory) (r : Option Reserve) : Type 0 where
    pub final : Reserve
    pub returns : r ≡ some final
    pub laid : Laid is_taken final.mem p ss
    pub below : (x : ℕ) → x < p → final.mem x ≡ m x
    pub above : (x : ℕ) → p + total ss ≤ x → final.mem x ≡ m x
    pub words : IsWords final.mem

module _ (lo hi : ℕ) (ordered : lo ≤ hi) where
  record Reserved (z : ℕ) (s : Section) (m : Memory) (r : Option Reserve) : Type 0 where
    mem : Memory
    returns : r ≡ some (record { zone = zone_next m z; mem = mem })
    fresh : IsFresh (is_taken lo hi s) mem z s
    inside : Inside m mem (z + 32) (z + extent s)
    words : IsWords mem

  -- The test and the two offsets of the loop, on the section instead of its zone.
  overlaps : Section → Bool
  overlaps s = leb lo s.base && leb s.base hi || leb s.base lo && leb lo (s.base + s.size - 1)

  first_bit : Section → ℕ
  first_bit s = ((if ltb lo s.base then s.base else lo) - s.base) / block_size

  last_bit : Section → ℕ
  last_bit s =
      ((if ltb (s.base + s.size - 1) hi then s.base + s.size - 1 else hi) - s.base) / block_size

  -- Without overlap no block meets the range, and with it the blocks between the offsets do.
  meets-apart :
      (s : Section) (j : ℕ)
      → IsSection s
      → overlaps s ≡ false
      → j < blocks s
      → meets lo hi s j ≡ false
  unfolding overlaps
  meets-apart s j v none lt = ground (arith, v.some_block)

  meets-between :
      (s : Section) (j : ℕ)
      → IsSection s
      → overlaps s ≡ true
      → j < blocks s
      → meets lo hi s j ≡ (leb (first_bit s) j && ltb j (last_bit s + 1))
  unfolding overlaps first_bit last_bit
  meets-between s j v some_ lt = ground (arith, v.some_block)

  offsets :
      (s : Section)
      → IsSection s
      → IsClear lo hi s
      → overlaps s ≡ true
      → (first_bit s ≤ last_bit s) × (last_bit s < blocks s)
  unfolding overlaps first_bit last_bit
  offsets s v c some_ = ground (arith, v.some_block)

  module _ (fuel : ℕ) (enough : 2 ^ 20 + 128 < fuel) (m : Memory) (w : IsWords m) (z : ℕ)
      (s : Section) (v : IsSection s) (c : IsClear lo hi s) (f : IsFresh (is_null s) m z s)
      (below_4g : hi < 2 ^ 32) where
    is_overlap-eq : is_overlap lo hi m z ≡ overlaps s
    unfolding overlaps
    is_overlap-eq = rw (f.laid.start, f.laid.end) refl

    start_bit-eq : start_bit lo hi m z ≡ first_bit s
    unfolding first_bit
    start_bit-eq = rw f.laid.start (ground (arith, v.some_block, v.within_4g))

    end_bit-eq : overlaps s ≡ true → end_bit lo hi m z ≡ last_bit s
    unfolding last_bit overlaps
    end_bit-eq o = rw (f.laid.start, f.laid.end) (ground (arith, v.some_block, v.within_4g))

    reserve_zone-Reserved : Reserved z s m (reserve_zone fuel lo hi (record { zone = z; mem = m }))
    unfolding reserve_zone
    reserve_zone-Reserved = elim (Bool-cases (overlaps s)) [
      | inl some_ ↦
          let bound = IsSection-bounds v in
          let o = offsets s v c some_ in
          let g =
            set_bits-Fills fuel m (z + 32) (first_bit s) (last_bit s) (omega (arith, bound))
              (omega (arith, bound)) (omega (arith, bound)) w in
          let inside = IsFilled-Inside z s (omega (arith, bound)) g.filled in
          let next : zone_next g.mem z ≡ zone_next m z = inside (z + 28) (inl (omega arith)) in
          rw (is_overlap-eq, some_, start_bit-eq, end_bit-eq some_, f.laid.bitmap, g.returns)
            (record {
              mem = g.mem;
              returns = ap (λ (n : ℕ). some (record { zone = n; mem = g.mem })) next;
              fresh = record {
                laid = Inside-IsLaid inside f.laid;
                bits = λ j lt.
                    ground (arith, g.filled.bits j, f.bits j lt, meets-between s j v some_, o);
              };
              inside = inside;
              words = g.filled.words;
            })
      | inr none ↦
          rw (is_overlap-eq, none)
            (record {
              mem = m;
              returns = refl;
              fresh = record {
                laid = f.laid;
                bits = λ j lt. ground (arith, f.bits j lt, meets-apart s j v none);
              };
              inside = λ x h. refl;
              words = w;
            })
    ]

  module _ (fuel : ℕ) (enough : 2 ^ 20 + 128 < fuel) (below_4g : hi < 2 ^ 32) where
    while_reserve :
        (rounds p : ℕ) (ss : List Section) (m : Memory)
        → length ss < rounds
        → p ≢ 0
        → p + total ss < 2 ^ 32
        → IsWords m
        → AllSections ss
        → AllClear lo hi ss
        → Laid is_null m p ss
        → Taken lo hi p ss m (
            while_some rounds
              (λ r. not (r.zone == 0))
              (reserve_zone fuel lo hi)
              (record { zone = link_to p ss; mem = m }))
    while_reserve zero p ss m f real room w v c l = absurd (omega arith)
    while_reserve (suc rounds) p [] m f real room w v c l = record {
      final = record { zone = 0; mem = m };
      returns = while_some-stop rounds _ _ _ refl;
      laid = tt;
      below = λ x lt. refl;
      above = λ x le. refl;
      words = w;
    }
    while_reserve (suc rounds) p (s ∷ ss) m f real room w v c l =
        let go : not (p == 0) ≡ true = ground arith in
        let step = reserve_zone-Reserved fuel enough m w p s v.0 c.0 l.0 below_4g in
        let returns =
          step.returns ∙ ap (λ (n : ℕ). some (record { zone = n; mem = step.mem })) l.1 in
        let later =
          Laid-frame is_null m step.mem (p + extent s) ss (λ x le. step.inside x (inr le)) l.2 in
        let rest =
          while_reserve rounds (p + extent s) ss step.mem (omega arith) (omega arith) (omega arith)
            step.words v.1 c.1 later in
        rw
          (while_some-go rounds (λ r. not (r.zone == 0)) (reserve_zone fuel lo hi)
            (record { zone = p; mem = m }) _ go returns)
          (record {
            final = rest.final;
            returns = rest.returns;
            laid = (
              IsFresh-frame (λ x le lt ne. rest.below x lt) step.fresh,
              rest.below (p + 28) (omega arith) ∙ step.inside (p + 28) (inl (omega arith)) ∙ l.1,
              rest.laid,
            );
            below = λ x lt. rest.below x (omega arith) ∙ step.inside x (inl (omega arith));
            above = λ x le. rest.above x (omega arith) ∙ step.inside x (inr (omega arith));
            words = rest.words;
          })

  -- The whole loop, on the zones of at least one section.
  pub reserve_zones-Taken :
      (fuel k : ℕ) (s : Section) (ss : List Section) (m : Memory)
      → 2 ^ 20 + 128 < fuel
      → length (s ∷ ss) < fuel
      → hi < 2 ^ 32
      → k ≢ 0
      → k + total (s ∷ ss) < 2 ^ 32
      → IsWords m
      → AllSections (s ∷ ss)
      → AllClear lo hi (s ∷ ss)
      → Laid is_null m k (s ∷ ss)
      → Taken lo hi k (s ∷ ss) m (reserve_zones fuel lo hi k m)
  unfolding reserve_zones
  reserve_zones-Taken fuel k s ss m enough few below_4g real room w v c l =
      while_reserve fuel enough below_4g fuel k (s ∷ ss) m few real room w v c l
