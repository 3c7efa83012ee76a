-- ===== src/Pmm/Init/Sections.antt =====
-- The first loop of `init_pmm` (lumos/arch/i386/pmm.c): one zone for each usable section.
mod Link
pub use Link.*
use osd.Base.{ℕ, zero, suc, ◌+◌, ◌*◌, ◌^◌, ◌≤◌, ◌<◌, u32, Memory, IsWords, store, Option, some}
use osd.Base.{while_some, while_some-go, while_some-stop, ltb, ◌==◌, not, Bool, true, false}
use osd.Base.{◌≡◌, ◌≢◌, ◌⊎◌, inl, inr, refl, arith, ◌∙◌, sym, ap, Bool-cases, List, [], ◌∷◌, length}
use osd.Pmm.Zone.{zone_next, zone_bitmap_words}
use osd.Pmm.Init.{Scan, is_skipped, next_section, link_zone, scan_section, scan_sections}
use osd.Pmm.Init.Layout.{
  Entry, is_usable, sections_of, HasEntries, HasEntries-frame, AllSections, total, link_to, Laid,
}
use osd.Pmm.Init.Place.{
  Section, IsSection, IsSection-bounds, extent, IsFresh, IsFresh-frame, is_null, place-Placed,
}

-- What the loop does from a state on: it lays the zones of the sections from `q` on, links the first
-- of them to the last zone before, and changes nothing else outside them.
pub record Scanned (zone q size : ℕ) (ss : List Section) (m : Memory) (r : Option Scan)
    : Type 0 where
  pub final : Scan
  pub returns : r ≡ some final
  pub laid : Laid is_null final.mem q ss
  pub linked : (zone ≡ 0) ⊎ (zone_next final.mem zone ≡ link_to q ss)
  pub counted : final.size ≡ u32 (size + total ss)
  pub below : (x : ℕ) → x < q → (zone ≡ 0) ⊎ (x ≢ zone + 28) → final.mem x ≡ m x
  pub above : (x : ℕ) → q + total ss ≤ x → final.mem x ≡ m x
  pub words : IsWords final.mem

not-eq_true : (b : Bool) → not b ≡ true → b ≡ false
not-eq_true true e = sym e
not-eq_true false e = refl

not-eq_false : (b : Bool) → not b ≡ false → b ≡ true
not-eq_false true e = refl
not-eq_false false e = sym e

module _ (fuel k limit : ℕ) (enough : 2 ^ 20 + 128 < fuel) (real : k ≢ 0)
    (apart : limit + 24 ≤ k) where
  -- One round for a usable section at `a`.
  record Step (a zone q size : ℕ) (e : Entry) (s : Section) (m : Memory) (r : Option Scan)
      : Type 0 where
    mem : Memory
    returns :
        r
        ≡ some
            (record { section = a + e.size + 4; zone = q; size = u32 (size + extent s); mem = mem })
    fresh : IsFresh (is_null s) mem q s
    behind : Behind k mem q (q + extent s)
    linked : (zone ≡ 0) ⊎ (zone_next mem zone ≡ q)
    below : (x : ℕ) → x < q → (zone ≡ 0) ⊎ (x ≢ zone + 28) → mem x ≡ m x
    above : (x : ℕ) → q + extent s ≤ x → mem x ≡ m x
    words : IsWords mem

  scan_section-Step :
      (a zone q size : ℕ) (e : Entry) (es : List Entry) (m : Memory)
      → IsWords m
      → HasEntries m a limit (e ∷ es)
      → is_usable e ≡ true
      → Behind k m zone q
      → let s : Section = record { base = e.base_low; size = e.length_low } in
        IsSection s
        → q + extent s < 2 ^ 32
        → Step a zone q size e s m
            (scan_section fuel k (record { section = a; zone = zone; size = size; mem = m }))
  unfolding scan_section
  scan_section-Step a zone q size e es m w h use_it behind v room =
      let s : Section = record { base = e.base_low; size = e.length_low } in
      let link = link_zone-Linked k m zone q w behind (omega arith) in
      let above : k ≤ q = omega arith in
      let kept = λ (x : ℕ) (lt : x < k). link.others x (apart_from_link k m zone q x behind lt) in
      let p =
        place-Placed fuel link.mem a q s enough link.words v (kept (a + 4) (omega arith) ∙ h.2)
          (kept (a + 12) (omega arith) ∙ h.4) (omega arith) room in
      let skipped : is_skipped m a ≡ false = rw (h.2, h.3, h.5) (not-eq_true _ use_it) in
      let size_e : p.mem a ≡ e.size = p.inside a (inl (omega arith)) ∙ kept a (omega arith) ∙ h.1 in
      let next : next_section p.mem a ≡ a + e.size + 4 = rw size_e (omega arith) in
      let own : u32 (size + u32 (32 + u32 (zone_bitmap_words p.mem q * 4)))
          ≡ u32 (size + extent s) =
        omega (arith, p.fresh.laid.words, IsSection-bounds v) in
      record {
        mem = p.mem;
        returns = rw (skipped, link.returns, p.returns, next, own) refl;
        fresh = p.fresh;
        behind = inr (
          omega arith,
          omega arith,
          ap (λ (n : ℕ). q + (32 + 4 * n)) (sym p.fresh.laid.words),
          p.next,
        );
        linked = elim behind [
          | inl b ↦ inl b.0
          | inr b ↦ elim link.linked [
            | inl none ↦ inl none
            | inr e ↦ inr (p.inside (zone + 28) (inl (omega arith)) ∙ e)
          ]
        ];
        below = λ x lt ne. p.inside x (inl lt) ∙ link.others x ne;
        above = λ x le.
            p.inside x (inr le) ∙ link.others x (past_link k m zone q x behind (omega arith));
        words = p.words;
      }

  scan_section-skips :
      (a zone size : ℕ) (e : Entry) (es : List Entry) (m : Memory)
      → HasEntries m a limit (e ∷ es)
      → is_usable e ≡ false
      → scan_section fuel k (record { section = a; zone = zone; size = size; mem = m })
        ≡ some (record { section = a + e.size + 4; zone = zone; size = size; mem = m })
  unfolding scan_section
  scan_section-skips a zone size e es m h no_use =
      let skipped : is_skipped m a ≡ true = rw (h.2, h.3, h.5) (not-eq_false _ no_use) in
      let next : next_section m a ≡ a + e.size + 4 = rw h.1 (omega arith) in rw (skipped, next) refl

  -- What a round and the rounds after it do together.
  Scanned-cons :
      (a zone q size : ℕ) (e : Entry) (s : Section) (ss : List Section) (m : Memory)
      {r r' : Option Scan}
      → Behind k m zone q
      → (step : Step a zone q size e s m r)
      → Scanned q (q + extent s) (u32 (size + extent s)) ss step.mem r'
      → Scanned zone q size (s ∷ ss) m r'
  Scanned-cons a zone q size e s ss m b step rest =
      let not_null : q ≢ 0 = λ z. real (omega arith) in
      record {
        final = rest.final;
        returns = rest.returns;
        laid = (
          IsFresh-frame (λ x lo hi ne. rest.below x hi (inr ne)) step.fresh,
          elim rest.linked [ inl z ↦ absurd (not_null z) | inr e ↦ e ],
          rest.laid,
        );
        linked = elim b [
          | inl x ↦ inl x.0
          | inr x ↦ elim step.linked [
            | inl z ↦ inl z
            | inr e ↦ inr (rest.below (zone + 28) (omega arith) (inr (omega arith)) ∙ e)
          ]
        ];
        counted = rest.counted ∙ omega arith;
        below = λ x lt ne. rest.below x (omega arith) (inr (omega arith)) ∙ step.below x lt ne;
        above = λ x le. rest.above x (omega arith) ∙ step.above x (omega arith);
        words = rest.words;
      }

  while_scan :
      (rounds a zone q size : ℕ) (es : List Entry) (m : Memory)
      → length es < rounds
      → size < 2 ^ 32
      → IsWords m
      → HasEntries m a limit es
      → Behind k m zone q
      → AllSections (sections_of es)
      → q + total (sections_of es) < 2 ^ 32
      → Scanned zone q size (sections_of es) m (
          while_some rounds
            (λ t. ltb t.section limit)
            (scan_section fuel k)
            (record { section = a; zone = zone; size = size; mem = m }))
  while_scan zero a zone q size es m f lt w h b v room = absurd (omega arith)
  while_scan (suc rounds) a zone q size [] m f lt w h b v room = record {
    final = record { section = a; zone = zone; size = size; mem = m };
    returns = while_some-stop rounds _ _ _ (ground arith);
    laid = tt;
    linked = elim b [ inl e ↦ inl e.0 | inr e ↦ inr e.3 ];
    counted = omega arith;
    below = λ x lt ne. refl;
    above = λ x le. refl;
    words = w;
  }
  while_scan (suc rounds) a zone q size (e ∷ es) m f lt w h b v room =
      let go : ltb a limit ≡ true = ground arith in
      elim (Bool-cases (is_usable e)) [
        | inl use_it ↦
            let s : Section = record { base = e.base_low; size = e.length_low } in
            let v' : IsSection s × AllSections (sections_of es) = rw use_it at v in
            let room' : q + (extent s + total (sections_of es)) < 2 ^ 32 = rw use_it at room in
            let step = scan_section-Step a zone q size e es m w h use_it b v'.0 (omega arith) in
            let same = λ (x : ℕ) (x_lt : x < k).
              step.below x (omega arith) (apart_from_link k m zone q x b x_lt) in
            let rest =
              while_scan rounds (a + e.size + 4) q (q + extent s) (u32 (size + extent s)) es
                step.mem (omega arith) (omega arith) step.words
                (HasEntries-frame m step.mem k (a + e.size + 4) limit es apart same h.7) step.behind
                v'.1 (omega arith) in
            rw
              (
                use_it,
                while_some-go rounds (λ t. ltb t.section limit) (scan_section fuel k)
                    (record { section = a; zone = zone; size = size; mem = m }) _ go step.returns,
              )
              (Scanned-cons a zone q size e s (sections_of es) m b step rest)
        | inr skip ↦
            rw
              (
                skip,
                while_some-go rounds (λ t. ltb t.section limit) (scan_section fuel k)
                    (record { section = a; zone = zone; size = size; mem = m }) _ go
                    (scan_section-skips a zone size e es m h skip),
              )
              (while_scan rounds (a + e.size + 4) zone q size es m (omega arith) lt w h.7 b
                (rw skip at v) (rw skip at room))
      ]

-- The whole loop, from no zone at all.
pub scan_sections-Scanned :
    (fuel k a limit : ℕ) (es : List Entry) (m : Memory)
    → 2 ^ 20 + 128 < fuel
    → length es < fuel
    → k ≢ 0
    → limit + 24 ≤ k
    → IsWords m
    → HasEntries m a limit es
    → AllSections (sections_of es)
    → k + total (sections_of es) < 2 ^ 32
    → Scanned 0 k 0
        (sections_of es)
        m
        (scan_sections fuel k limit (record { section = a; zone = 0; size = 0; mem = m }))
unfolding scan_sections
scan_sections-Scanned fuel k a limit es m enough few real apart w h v room =
    while_scan fuel k limit enough real apart fuel a 0 k 0 es m few (omega arith) w h
      (inl (refl, refl)) v room
