-- ===== src/Pmm/Session/FreeSet.antt =====
-- The effect of `pmm_alloc` and `pmm_free` (lumos/arch/i386/pmm.c) on the set of free addresses.
use osd.Base.{ℕ, ◌+◌, ◌*◌, ◌<◌, ◌≤◌, Memory, List, [], ◌∷◌}
use osd.Base.{◌==◌, ◌&&◌, Bool, false, if◌then◌else◌, ◌≡◌, ◌≢◌, ◌⊎◌, inl, inr, arith}
use osd.Base.{◌∙◌, sym, ap, refl}
use native.Mathlib.Decide.{ℕ_discrete}
use osd.Pmm.Bitmap.{test_bit, word_addr}
use osd.Pmm.Bitmap.Single.{test_bit_frame}
use osd.Pmm.Zone.{
  zone_start, zone_length, zone_bitmap, zone_limit, zone_next, block_size, IsZone-bounds, Zones,
}
use osd.Pmm.Zone.Frame.{In, In-IsZone, In-limit}
use osd.Pmm.Alloc.Mark.{IsMarked, same_outside}
use osd.Pmm.Session.{IsBlock, IsFree, IsDisjoint}

-- Of two zones of a list one stands behind the other's bitmap.
In-apart :
    (m : Memory) (p z z' : ℕ) (zs : List ℕ)
    → Zones m p zs
    → In z zs
    → In z' zs
    → z ≢ z'
    → (zone_limit m z ≤ z') ⊎ (zone_limit m z' ≤ z)
In-apart m p z z' [] l i j ne = absurd i
In-apart m p z z' (x ∷ xs) l (inl e) (inl e') ne = absurd (ne (sym e ∙ e'))
In-apart m p z z' (x ∷ xs) l (inl e) (inr j) ne = inl (rw e at (In-limit m p z' x xs l j))
In-apart m p z z' (x ∷ xs) l (inr i) (inl e) ne = inr (rw e at (In-limit m p z x xs l i))
In-apart m p z z' (x ∷ xs) l (inr i) (inr j) ne = In-apart m (zone_next m x) z z' xs l.3 i j ne

-- The address is in no zone of the list.
abbrev pub Outside : Memory → List ℕ → ℕ → Type 0
Outside m zs a = (z : ℕ) → In z zs → (a < z) ⊎ (zone_limit m z ≤ a)

-- The zones end where they did, and the memory outside them is as it was.
pub record Stays (m : Memory) (zs : List ℕ) (m' : Memory) : Type 0 where
  pub limits : (z : ℕ) → In z zs → zone_limit m' z ≡ zone_limit m z
  pub outside : (a : ℕ) → Outside m zs a → m' a ≡ m a

pub Stays-refl : (m : Memory) (zs : List ℕ) → Stays m zs m
Stays-refl m zs = record { limits = λ z i. refl; outside = λ a o. refl }

pub Stays-trans : (r s t : Memory) (zs : List ℕ) → Stays r zs s → Stays s zs t → Stays r zs t
Stays-trans r s t zs h k = record {
  limits = λ z i. k.limits z i ∙ h.limits z i;
  outside = λ a o. k.outside a (λ z i. omega (arith, o z i, h.limits z i)) ∙ h.outside a o;
}

-- Only the bit of block `i` of zone `z` differs among the zones' blocks.
pub record Changed (v : Bool) (m : Memory) (zs : List ℕ) (z i : ℕ) (m' : Memory) : Type 0 where
  pub starts : (x : ℕ) → In x zs → zone_start m' x ≡ zone_start m x
  pub lengths : (x : ℕ) → In x zs → zone_length m' x ≡ zone_length m x
  pub maps : (x : ℕ) → In x zs → zone_bitmap m' x ≡ zone_bitmap m x
  pub bits :
      (x j : ℕ)
      → In x zs
      → j < zone_length m x
      → test_bit m' (zone_bitmap m x) j
        ≡ (if x == z && (j == i) then v else test_bit m (zone_bitmap m x) j)

module _ (v : Bool) (count : ℕ) (m m' : Memory) (p z i : ℕ) (zs : List ℕ) (l : Zones m p zs)
    (listed : In z zs) (lt : i < zone_length m z) (k : IsMarked v count m z i m') where
  -- A word of a zone other than the counter of `z` and the word of the bit stays.
  word_same :
      (x y : ℕ)
      → In x zs
      → x ≤ y
      → y < zone_limit m x
      → (x ≡ z → (y ≢ z + 12) × (y ≢ word_addr (zone_bitmap m z) i))
      → m' y ≡ m y
  word_same x y inside lo hi off =
      let zone = In-IsZone m p z zs l listed in
      elim (ℕ_discrete x z) [
        | yes e ↦ k.others y (off e).0 (off e).1
        | no other ↦ elim (In-apart m p x z zs l inside listed other) [
          | inl before ↦
              k.others y (omega arith) (omega (arith, zone.bitmap_at, IsZone-bounds zone))
          | inr behind ↦
              k.others y (omega arith) (omega (arith, zone.bitmap_at, IsZone-bounds zone))
        ]
      ]

  field_same : (x y : ℕ) → In x zs → x ≤ y → y < x + 32 → y ≢ x + 12 → m' y ≡ m y
  field_same x y inside lo hi ne =
      let zone = In-IsZone m p z zs l listed in
      word_same x y inside lo (omega arith) (λ e. (omega arith, omega (arith, zone.bitmap_at)))

  pub IsMarked-Stays : Stays m zs m'
  IsMarked-Stays = record {
    limits = λ x inside.
        ap (λ (n : ℕ). x + 32 + 4 * n)
          (field_same x (x + 20) inside (omega arith) (omega arith) (omega arith));
    outside = λ a o. same_outside k (In-IsZone m p z zs l listed) lt a (o z listed);
  }

  pub IsMarked-Changed : Changed v m zs z i m'
  IsMarked-Changed = record {
    starts = λ x inside. field_same x x inside (omega arith) (omega arith) (omega arith);
    lengths = λ x inside. field_same x (x + 8) inside (omega arith) (omega arith) (omega arith);
    maps = λ x inside. field_same x (x + 24) inside (omega arith) (omega arith) (omega arith);
    bits = λ x j inside below. elim (ℕ_discrete x z) [
      | yes e ↦ rw e (ground (arith, k.bits j))
      | no other ↦
          let own = In-IsZone m p x zs l inside in
          let off : x == z ≡ false = ground (arith, other) in
          rw off (
            test_bit_frame m m' (zone_bitmap m x) j (
              word_same x (word_addr (zone_bitmap m x) j) inside (omega (arith, own.bitmap_at))
                (omega (arith, own.bitmap_at, IsZone-bounds own)) (λ e. absurd (other e))))
    ];
  }

-- The set of free addresses after the bit of one block is written.
module _ (v : Bool) (m m' : Memory) (zs : List ℕ) (z i addr : ℕ) (listed : In z zs)
    (here : IsBlock m z i addr) (d : IsDisjoint m zs) (c : Changed v m zs z i m') where
  IsBlock-before : (x j a : ℕ) → In x zs → IsBlock m' x j a → IsBlock m x j a
  IsBlock-before x j a inside b = omega (arith, c.starts x inside, c.lengths x inside)

  IsBlock-after : (x j a : ℕ) → In x zs → IsBlock m x j a → IsBlock m' x j a
  IsBlock-after x j a inside b = omega (arith, c.starts x inside, c.lengths x inside)

  pub Changed-IsDisjoint : IsDisjoint m' zs
  Changed-IsDisjoint x y j j' a in_x in_y b b' =
      d x y j j' a in_x in_y (IsBlock-before x j a in_x b) (IsBlock-before y j' a in_y b')

  -- The block is the one at the address.
  same_block : (x j a : ℕ) → In x zs → IsBlock m x j a → (x == z && (j == i)) ≡ (a == addr)
  same_block x j a inside b = elim (ℕ_discrete a addr) [
    | yes e ↦
        let same : x ≡ z = d x z j i addr inside listed (b.0, sym e ∙ b.1) here in
        let start : zone_start m x ≡ zone_start m z = ap (λ (n : ℕ). m n) same in
        let block : j ≡ i = omega arith in ground arith
    | no other ↦ elim (ℕ_discrete x z) [
      | yes same ↦
          let start : zone_start m x ≡ zone_start m z = ap (λ (n : ℕ). m n) same in
          let block : j ≢ i = λ e. other (omega (arith, ap (λ (n : ℕ). n * block_size) e)) in
          ground arith
      | no apart ↦ ground arith
    ]
  ]

  bit_after :
      (x j a : ℕ)
      → In x zs
      → IsBlock m x j a
      → test_bit m' (zone_bitmap m' x) j ≡ (if a == addr then v else test_bit m (zone_bitmap m x) j)
  bit_after x j a inside b =
      rw (c.maps x inside, ← same_block x j a inside b) (c.bits x j inside b.0)

  pub IsFree-before :
      (a : ℕ) → IsFree m' zs a → (IsFree m zs a × (a ≢ addr)) ⊎ ((a ≡ addr) × (v ≡ false))
  IsFree-before a f =
      let b = IsBlock-before f.zone f.block a f.listed f.here in
      let bit = bit_after f.zone f.block a f.listed b in
      elim (ℕ_discrete a addr) [
        | yes e ↦ inr (e, ground arith)
        | no ne ↦ inl (
          record {
            zone = f.zone;
            block = f.block;
            listed = f.listed;
            here = b;
            clear = ground (arith, f.clear);
          },
          ne,
        )
      ]

  pub IsFree-other : (a : ℕ) → IsFree m zs a → a ≢ addr → IsFree m' zs a
  IsFree-other a f ne = record {
    zone = f.zone;
    block = f.block;
    listed = f.listed;
    here = IsBlock-after f.zone f.block a f.listed f.here;
    clear = ground (arith, f.clear, bit_after f.zone f.block a f.listed f.here);
  }

  pub IsFree-same : v ≡ false → IsFree m' zs addr
  IsFree-same e = record {
    zone = z;
    block = i;
    listed = listed;
    here = IsBlock-after z i addr listed here;
    clear = ground (arith, bit_after z i addr listed here);
  }
