-- ===== src/Pmm/Zone/Frame.antt =====
-- The zones of lumos/arch/i386/pmm.c do not overlap: a write inside one leaves the others alone.
use osd.Base.{ℕ, ◌+◌, ◌≤◌, ◌<◌, Memory, List, [], ◌∷◌}
use osd.Base.{◌≡◌, ◌⊎◌, inl, inr, arith, ◌∙◌}
use osd.Pmm.Bitmap.Single.{test_bit_frame}
use osd.Pmm.Zone.{zone_length, zone_bitmap_words}
use osd.Pmm.Zone.{zone_bitmap, zone_next, zone_limit, IsZone, Zones}

-- The zone at `z` is in the list.
abbrev pub In : ℕ → List ℕ → Type 0
In z [] = ⊥
In z (x ∷ xs) = (x ≡ z) ⊎ In z xs

-- The memories agree from `lo` up to `hi`.
abbrev pub Agree : Memory → Memory → ℕ → ℕ → Type 0
Agree m m' lo hi = (a : ℕ) → lo ≤ a → a < hi → m' a ≡ m a

pub IsZone-frame :
    (m m' : Memory) (z : ℕ) → Agree m m' z (zone_limit m z) → IsZone m z → IsZone m' z
IsZone-frame m m' z agree v = record {
  not_null = v.not_null;
  bitmap_at = ground (arith, v.bitmap_at, agree (z + 24));
  bitmap_fits = ground (arith, v.bitmap_fits, agree (z + 20), agree (z + 8));
  hint = ground (arith, v.hint, agree (z + 16));
  below_4g = ground (arith, v.below_4g, agree z, agree (z + 8));
  in_order = ground (arith, v.in_order, agree z, agree (z + 4));
  padding = λ j p q.
      let len : zone_length m' z ≡ zone_length m z = agree (z + 8) (omega arith) (omega arith) in
      let words : zone_bitmap_words m' z ≡ zone_bitmap_words m z =
        agree (z + 20) (omega arith) (omega arith) in
      let at : zone_bitmap m' z ≡ zone_bitmap m z = agree (z + 24) (omega arith) (omega arith) in
      rw at (
        test_bit_frame m m' (zone_bitmap m z) j
          (agree _ (omega (arith, v.bitmap_at)) (omega (arith, v.bitmap_at)))
        ∙ v.padding j (omega arith) (omega arith));
}

-- The null pointer is the end of a list.
at_null :
    (m m' : Memory) (q : ℕ) (zs : List ℕ)
    → q ≡ 0
    → Zones m q zs
    → Zones m' q zs × ((z : ℕ) → ¬ In z zs)
at_null m m' q [] e l = (l, λ z i. i)
at_null m m' q (y ∷ ys) e l = absurd (l.1.not_null (omega arith))

pub In-le : (m : Memory) (p z : ℕ) (zs : List ℕ) → Zones m p zs → In z zs → p ≤ z
In-le m p z [] l i = absurd i
In-le m p z (x ∷ xs) l (inl e) = omega arith
In-le m p z (x ∷ xs) l (inr i) = elim l.2 [
  | inl e ↦ absurd ((at_null m m (zone_next m x) xs e l.3).1 z i)
  | inr e ↦ omega (arith, In-le m (zone_next m x) z xs l.3 i, l.0)
]

-- What stands behind a zone in the list lies behind its bitmap.
pub In-limit :
    (m : Memory) (p z x : ℕ) (xs : List ℕ) → Zones m p (x ∷ xs) → In z xs → zone_limit m x ≤ z
In-limit m p z x xs l i = elim l.2 [
  | inl e ↦ absurd ((at_null m m (zone_next m x) xs e l.3).1 z i)
  | inr e ↦ omega (arith, In-le m (zone_next m x) z xs l.3 i)
]

pub In-IsZone : (m : Memory) (p z : ℕ) (zs : List ℕ) → Zones m p zs → In z zs → IsZone m z
In-IsZone m p z [] l i = absurd i
In-IsZone m p z (x ∷ xs) l (inl e) = rw e at l.1
In-IsZone m p z (x ∷ xs) l (inr i) = In-IsZone m (zone_next m x) z xs l.3 i

Zones-frame :
    (m m' : Memory) (p : ℕ) (zs : List ℕ)
    → ((a : ℕ) → p ≤ a → m' a ≡ m a)
    → Zones m p zs
    → Zones m' p zs
Zones-frame m m' p [] agree l = l
Zones-frame m m' p (x ∷ xs) agree l =
    let next : zone_next m' x ≡ zone_next m x = agree (x + 28) (omega (arith, l.0)) in
    let words : zone_bitmap_words m' x ≡ zone_bitmap_words m x =
      agree (x + 20) (omega (arith, l.0)) in
    let zone = IsZone-frame m m' x (λ a lo hi. agree a (omega (arith, l.0))) l.1 in
    rw (next, words)
      (elim l.2 [
        | inl e ↦ (l.0, zone, l.2, (at_null m m' (zone_next m x) xs e l.3).0)
        | inr e ↦ (
          l.0,
          zone,
          l.2,
          Zones-frame m m' (zone_next m x) xs (λ a lo. agree a (omega (arith, l.0))) l.3,
        )
      ])

Zones-update_first :
    (m m' : Memory) (p z : ℕ) (zs : List ℕ)
    → Zones m p (z ∷ zs)
    → ((a : ℕ) → zone_limit m z ≤ a → m' a ≡ m a)
    → IsZone m' z
    → zone_next m' z ≡ zone_next m z
    → zone_bitmap_words m' z ≡ zone_bitmap_words m z
    → Zones m' p (z ∷ zs)
Zones-update_first m m' p z zs l behind v next words =
    rw (next, words)
      (elim l.2 [
        | inl e ↦ (l.0, v, l.2, (at_null m m' (zone_next m z) zs e l.3).0)
        | inr e ↦
            (l.0, v, l.2, Zones-frame m m' (zone_next m z) zs (λ a lo. behind a (omega arith)) l.3)
      ])

-- A change inside one zone that leaves it a zone of the same extent keeps the list.
pub Zones-update :
    (m m' : Memory) (p z : ℕ) (zs : List ℕ)
    → Zones m p zs
    → In z zs
    → ((a : ℕ) → (a < z) ⊎ (zone_limit m z ≤ a) → m' a ≡ m a)
    → IsZone m' z
    → zone_next m' z ≡ zone_next m z
    → zone_bitmap_words m' z ≡ zone_bitmap_words m z
    → Zones m' p zs
Zones-update m m' p z [] l i outside v next words = absurd i
Zones-update m m' p z (x ∷ xs) l (inl e) outside v next words =
    rw e (Zones-update_first m m' p z xs (rw e at l) (λ a lo. outside a (inr lo)) v next words)
Zones-update m m' p z (x ∷ xs) l (inr i) outside v next words =
    let above = In-limit m p z x xs l i in
    let next' : zone_next m' x ≡ zone_next m x = outside (x + 28) (inl (omega arith)) in
    let words' : zone_bitmap_words m' x ≡ zone_bitmap_words m x =
      outside (x + 20) (inl (omega arith)) in
    let zone = IsZone-frame m m' x (λ a lo hi. outside a (inl (omega arith))) l.1 in
    let rest = Zones-update m m' (zone_next m x) z xs l.3 i outside v next words in
    rw (next', words') (l.0, zone, l.2, rest)
