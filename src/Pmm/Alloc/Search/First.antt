-- ===== src/Pmm/Alloc/Search/First.antt =====
-- The first zone with a free block, and the first clear bit of a range: what the searches of
-- `pmm_alloc` in lumos/arch/i386/pmm.c look for.
use osd.Base.{ℕ, zero, suc, ◌+◌, ◌≤◌, ◌<◌, Memory}
use osd.Base.{Option, none, some, ◌==◌}
use osd.Base.{true, false, if◌then◌else◌, List, [], ◌∷◌, ◌≡◌, ◌≢◌, inl, inr, refl, arith}
use osd.Base.{Bool-cases, ap}
use osd.Pmm.Bitmap.{test_bit}
use osd.Pmm.Zone.{zone_free, IsZone, Zones}
use osd.Pmm.Zone.Frame.{In, In-IsZone}

-- The first zone of the list whose counter of free blocks is not 0.
unfoldable pub first_zone : Memory → List ℕ → Option ℕ
first_zone m [] = none
first_zone m (z ∷ zs) = if zone_free m z == 0 then first_zone m zs else some z

abbrev pub or_null : Option ℕ → ℕ
or_null none = 0
or_null (some z) = z

-- The first such zone is in the list, and counts a free block.
pub first_zone_lem :
    (m : Memory) (p : ℕ) (zs : List ℕ) (z : ℕ)
    → first_zone m zs ≡ some z
    → In z zs × (zone_free m z ≢ 0)
unfolding first_zone
first_zone_lem m p [] z e = cc
first_zone_lem m p (x ∷ zs) z e = elim (Bool-cases (zone_free m x == 0)) [
  | inl busy ↦ let rest = first_zone_lem m p zs z (ground arith) in (inr rest.0, rest.1)
  | inr room ↦ let same : x ≡ z = ground arith in (inl same, ground arith)
]

pub first_zone-IsZone :
    (m : Memory) (p : ℕ) (zs : List ℕ) (z : ℕ)
    → Zones m p zs
    → first_zone m zs ≡ some z
    → IsZone m z
first_zone-IsZone m p zs z l e = In-IsZone m p z zs l (first_zone_lem m p zs z e).0

pub first_zone-cons :
    (m : Memory) (z : ℕ) (zs : List ℕ) → zone_free m z ≢ 0 → first_zone m (z ∷ zs) ≡ some z
unfolding first_zone
first_zone-cons m z zs ne = ground arith

-- Without one every counter is 0.
pub first_zone-none :
    (m : Memory) (zs : List ℕ) (z : ℕ) → first_zone m zs ≡ none → In z zs → zone_free m z ≡ 0
unfolding first_zone
first_zone-none m [] z e i = absurd i
first_zone-none m (x ∷ zs) z e (inl same) = ground arith
first_zone-none m (x ∷ zs) z e (inr i) = first_zone-none m zs z (ground arith) i

-- The least unset bit among the `n` bits from `i` on.
unfoldable pub first_clear : Memory → ℕ → ℕ → ℕ → Option ℕ
first_clear m map zero i = none
first_clear m map (suc n) i = if test_bit m map i then first_clear m map n (i + 1) else some i

-- The bits `lo`, …, `hi` - 1 of the map are set.
abbrev pub AllSet : Memory → ℕ → ℕ → ℕ → Type 0
AllSet m map lo hi = (j : ℕ) → lo ≤ j → j < hi → test_bit m map j ≡ true

pub first_clear-none :
    (m : Memory) (map n i : ℕ) → AllSet m map i (i + n) → first_clear m map n i ≡ none
unfolding first_clear
first_clear-none m map zero i h = refl
first_clear-none m map (suc n) i h =
    rw (h i (omega arith) (omega arith))
      (first_clear-none m map n (i + 1) (λ j p q. h j (omega arith) (omega arith)))

pub first_clear-some :
    (m : Memory) (map n i j : ℕ)
    → i ≤ j
    → j < i + n
    → AllSet m map i j
    → test_bit m map j ≡ false
    → first_clear m map n i ≡ some j
unfolding first_clear
first_clear-some m map zero i j p q h c = absurd (omega arith)
first_clear-some m map (suc n) i j p q h c = elim (Bool-cases (test_bit m map i)) [
  | inl set ↦ rw set (
      first_clear-some m map n (i + 1) j (ground arith) (omega arith) (λ k s t. h k (omega arith) t)
        c)
  | inr clear ↦ rw clear (ap some (ground (arith, h i)))
]

pub first_clear_sound :
    (m : Memory) (map n i j : ℕ)
    → first_clear m map n i ≡ some j
    → (i ≤ j) × (j < i + n) × (test_bit m map j ≡ false) × AllSet m map i j
unfolding first_clear
first_clear_sound m map zero i j e = cc
first_clear_sound m map (suc n) i j e = elim (Bool-cases (test_bit m map i)) [
  | inl set ↦
      let rest = first_clear_sound m map n (i + 1) j (ground arith) in
      (omega arith, omega arith, rest.2, λ k p q. ground (arith, rest.3 k))
  | inr clear ↦
      let here : i ≡ j = ground arith in
      (omega arith, omega arith, ground arith, λ k p q. absurd (omega arith))
]

pub first_clear_complete :
    (m : Memory) (map n i : ℕ) → first_clear m map n i ≡ none → AllSet m map i (i + n)
unfolding first_clear
first_clear_complete m map zero i e k p q = absurd (omega arith)
first_clear_complete m map (suc n) i e k p q = ground (
  arith,
  λ (f : first_clear m map n (i + 1) ≡ none) (a : i + 1 ≤ k) (b : k < i + 1 + n).
      first_clear_complete m map n (i + 1) f k a b,
)
