-- ===== src/Pmm/Init/Sections/Link.antt =====
-- The link from the last zone to a new one, in `init_pmm` of lumos/arch/i386/pmm.c.
use osd.Base.{ℕ, ◌+◌, ◌*◌, ◌^◌, ◌≤◌, ◌<◌, u32, Memory, IsWords, store}
use osd.Base.{◌==◌, false}
use osd.Base.{◌≡◌, ◌≢◌, ◌⊎◌, inl, inr, refl, arith}
use osd.Pmm.Zone.{zone_next, zone_bitmap_words}
use osd.Pmm.Init.{link_zone}

-- Where the next zone goes: to the kernel's end, or behind the last zone, whose link is still null.
abbrev pub Behind : ℕ → Memory → ℕ → ℕ → Type 0
Behind k m zone q =
    ((zone ≡ 0) × (q ≡ k))
    ⊎ ((zone ≢ 0)
        × (k ≤ zone)
        × (q ≡ zone + (32 + 4 * zone_bitmap_words m zone))
        × (zone_next m zone ≡ 0))

pub record Linked (zone q : ℕ) (m : Memory) (r : ℕ × Memory) : Type 0 where
  pub mem : Memory
  pub returns : r ≡ (q, mem)
  pub linked : (zone ≡ 0) ⊎ (zone_next mem zone ≡ q)
  pub others : (x : ℕ) → (zone ≡ 0) ⊎ (x ≢ zone + 28) → mem x ≡ m x
  pub words : IsWords mem

pub link_zone-Linked :
    (k : ℕ) (m : Memory) (zone q : ℕ)
    → IsWords m
    → Behind k m zone q
    → q < 2 ^ 32
    → Linked zone q m (link_zone k zone m)
unfolding link_zone
link_zone-Linked k m zone q w (inl (none, at)) lt = record {
  mem = m;
  returns = rw (none, at) refl;
  linked = inl none;
  others = λ x h. refl;
  words = w;
}
link_zone-Linked k m zone q w (inr (real, above, at, last)) lt = record {
  mem = store m (zone + 28) q;
  returns =
      let next : u32 (zone + u32 (32 + u32 (zone_bitmap_words m zone * 4))) ≡ q = omega arith in
      let there : zone == 0 ≡ false = ground arith in rw (there, next) refl;
  linked = inr (ground arith);
  others = λ x h. ground arith;
  words = λ x. ground (arith, w x);
}

pub apart_from_link :
    (k : ℕ) (m : Memory) (zone q x : ℕ) → Behind k m zone q → x < k → (zone ≡ 0) ⊎ (x ≢ zone + 28)
apart_from_link k m zone q x (inl b) lt = inl b.0
apart_from_link k m zone q x (inr b) lt = inr (omega arith)

-- The link lies below the next zone.
pub past_link :
    (k : ℕ) (m : Memory) (zone q x : ℕ) → Behind k m zone q → q ≤ x → (zone ≡ 0) ⊎ (x ≢ zone + 28)
past_link k m zone q x (inl b) le = inl b.0
past_link k m zone q x (inr b) le = inr (omega arith)
