-- ===== src/Pmm/Session/Start.antt =====
-- Sessions of the allocator after `init_pmm` (lumos/arch/i386/pmm.c).
use osd.Base.{ℕ, suc, ◌+◌, ◌-◌, ◌*◌, ◌^◌, ◌<◌, ◌≤◌, Memory, Option, some, List, [], ◌∷◌, length}
use osd.Base.{Bool, false, ◌≡◌, ◌≢◌, ◌⊎◌, inl, inr, refl, arith, ◌∙◌, sym, ap}
use osd.Pmm.Bitmap.{test_bit}
use osd.Pmm.Zone.{zone_bitmap, zone_limit, block_size}
use osd.Pmm.Zone.Frame.{In}
use osd.Pmm.Init.{Boot, ready, init_pmm}
use osd.Pmm.Init.Place.{Section, IsSection, blocks, extent, Inside, IsFresh, IsSection-bounds}
use osd.Pmm.Init.Layout.{Entry, AllSections, total, Laid}
use osd.Pmm.Init.Kernel.{is_taken}
use osd.Pmm.Init.Booted.{places, IsBootable, Booted, init_pmm-Booted}
use osd.Pmm.Session.{IsBlock, IsDisjoint, Session, Reach}
use osd.Pmm.Session.Calls.{IsSound}
use osd.Pmm.Session.Safe.{IsDistinct, Reach-IsDivided}

-- The sections do not overlap.
abbrev pub IsOff : Section → Section → Type 0
IsOff s x = (s.base + s.size ≤ x.base) ⊎ (x.base + x.size ≤ s.base)

abbrev pub AllOff : Section → List Section → Type 0
AllOff s [] = Unit {0}
AllOff s (x ∷ xs) = IsOff s x × AllOff s xs

abbrev pub AreApart : List Section → Type 0
AreApart [] = Unit {0}
AreApart (s ∷ ss) = AllOff s ss × AreApart ss

-- `a` is the address of a block of one of the sections that `used` does not hold of.
abbrev pub IsAvailable : (Section → ℕ → Bool) → List Section → ℕ → Type 0
IsAvailable used [] a = ⊥
IsAvailable used (s ∷ ss) a =
    ((j : ℕ) × (j < blocks s) × (a ≡ s.base + j * block_size) × (used s j ≡ false))
    ⊎ IsAvailable used ss a

module _ (used : Section → ℕ → Bool) (m : Memory) where
  -- Where a block of the section's zone lies.
  within :
      (z i a : ℕ) (s : Section)
      → IsFresh (used s) m z s
      → IsBlock m z i a
      → (i < blocks s) × (a ≡ s.base + i * block_size)
  within z i a s f b = omega (arith, f.laid.start, f.laid.length)

  no_block_shared :
      (p z i j a : ℕ) (s : Section) (ss : List Section)
      → Laid used m p ss
      → AllSections ss
      → AllOff s ss
      → In z (places p ss)
      → IsBlock m z j a
      → IsSection s
      → i < blocks s
      → a ≢ s.base + i * block_size
  no_block_shared p z i j a s [] l v o k b w lt e = k
  no_block_shared p z i j a s (x ∷ xs) l v o (inl same) b w lt e =
      let at = within p j a x l.0 (rw (sym same) at b) in
      omega (arith, at, v.0.within_4g, w.within_4g)
  no_block_shared p z i j a s (x ∷ xs) l v o (inr k) b w lt e =
      no_block_shared (p + extent x) z i j a s xs l.2 v.1 o.1 k b w lt e

  Laid-IsDisjoint :
      (p : ℕ) (ss : List Section)
      → Laid used m p ss
      → AllSections ss
      → AreApart ss
      → IsDisjoint m (places p ss)
  Laid-IsDisjoint p [] l v o z z' i i' a k k' b b' = absurd k
  Laid-IsDisjoint p (s ∷ ss) l v o z z' i i' a (inl e) (inl e') b b' = sym e ∙ e'
  Laid-IsDisjoint p (s ∷ ss) l v o z z' i i' a (inl e) (inr k') b b' =
      let at = within p i a s l.0 (rw (sym e) at b) in
      absurd (no_block_shared (p + extent s) z' i i' a s ss l.2 v.1 o.0 k' b' v.0 at.0 at.1)
  Laid-IsDisjoint p (s ∷ ss) l v o z z' i i' a (inr k) (inl e') b b' =
      let at = within p i' a s l.0 (rw (sym e') at b') in
      absurd (no_block_shared (p + extent s) z i' i a s ss l.2 v.1 o.0 k b v.0 at.0 at.1)
  Laid-IsDisjoint p (s ∷ ss) l v o z z' i i' a (inr k) (inr k') b b' =
      Laid-IsDisjoint (p + extent s) ss l.2 v.1 o.1 z z' i i' a k k' b b'

  pub block-IsAvailable :
      (p z i a : ℕ) (ss : List Section)
      → Laid used m p ss
      → AllSections ss
      → In z (places p ss)
      → IsBlock m z i a
      → test_bit m (zone_bitmap m z) i ≡ false
      → IsAvailable used ss a
  block-IsAvailable p z i a [] l v k b c = absurd k
  block-IsAvailable p z i a (s ∷ ss) l v (inl e) b c =
      let at = within p i a s l.0 (rw (sym e) at b) in
      let clear : test_bit m (p + 32) i ≡ false = rw l.0.laid.bitmap at (rw (sym e) at c) in
      inl (i, at.0, at.1, ground (arith, l.0.bits i, IsSection-bounds v.0))
  block-IsAvailable p z i a (s ∷ ss) l v (inr k) b c =
      inr (block-IsAvailable (p + extent s) z i a ss l.2 v.1 k b c)

-- Where the zones of the sections stand.
Laid-within :
    (used : Section → ℕ → Bool) (m : Memory) (p z : ℕ) (ss : List Section)
    → Laid used m p ss
    → In z (places p ss)
    → (p ≤ z) × (zone_limit m z ≤ p + total ss)
Laid-within used m p z [] l i = absurd i
Laid-within used m p z (s ∷ ss) l (inl e) = rw (sym e) (omega arith, omega (arith, l.0.laid.words))
Laid-within used m p z (s ∷ ss) l (inr i) =
    omega (arith, Laid-within used m (p + extent s) z ss l.2 i)

-- The addresses are distinct, and the 4 KiB from each are apart from address 0 and the range from `lo`
-- to `hi`.
pub record IsSafe (lo hi : ℕ) (held : List ℕ) : Type 0 where
  pub distinct : IsDistinct held
  pub apart : (a : ℕ) → In a held → (a ≢ 0) × ((a + 4095 < lo) ⊎ (hi < a))

available_apart :
    (lo hi : ℕ) (ss : List Section) (a : ℕ)
    → IsAvailable (is_taken lo hi) ss a
    → (a ≢ 0) × ((a + 4095 < lo) ⊎ (hi < a))
available_apart lo hi [] a h = absurd h
available_apart lo hi (s ∷ ss) a (inl (j, lt, at, free)) = (λ e. ground arith, ground arith)
available_apart lo hi (s ∷ ss) a (inr h) = available_apart lo hi ss a h

abbrev memory_of : Option Boot → Memory
memory_of (some (ready m)) = m
memory_of _ = λ a. 0

pub length-places : (p : ℕ) (ss : List Section) → length (places p ss) ≡ length ss
length-places p [] = refl
length-places p (s ∷ ss) = ap suc (length-places (p + extent s) ss)

module _ (fuel kernel_start kernel_end offset : ℕ) (m : Memory) (b : ℕ) (es : List Entry)
    (s : Section) (ss : List Section)
    (boot : IsBootable kernel_start kernel_end offset m b es (s ∷ ss)) where
  pub Booted-IsSound :
      {r : Option Boot} (k : Booted kernel_start kernel_end offset (s ∷ ss) m r)
      → AreApart (s ∷ ss)
      → IsSound k.mem kernel_end (places kernel_end (s ∷ ss))
  Booted-IsSound k o = record {
    zones = k.zones;
    words = k.words;
    disjoint = Laid-IsDisjoint _ k.mem kernel_end (s ∷ ss) k.laid boot.sections o;
    null_taken = λ f.
        (available_apart _ _ (s ∷ ss) 0 (
            block-IsAvailable _ k.mem kernel_end f.zone f.block 0 (s ∷ ss) k.laid boot.sections
              f.listed f.here f.clear)).0
          refl;
  }

  -- After `init_pmm` on a bootable machine whose usable sections do not overlap, with fuel
  -- above 2 ^ 20 + 128, above the number of entries and above the number of usable sections, and after any calls of `pmm_alloc` and any calls of `pmm_free` on held blocks of the first zone: no
  -- address is held twice, none is the null pointer, and no block held has a byte of the kernel or of
  -- the zones; and no word has changed since before `init_pmm` but in the zones' memory, which is behind
  -- the kernel's end.
  pub init_pmm-IsSafe :
      2 ^ 20 + 128 < fuel
      → length es < fuel
      → length (s ∷ ss) < fuel
      → AreApart (s ∷ ss)
      → (m0 : Memory) {t : Session}
      → init_pmm fuel kernel_start kernel_end offset m b ≡ some (ready m0)
      → Reach fuel kernel_end kernel_end (record { mem = m0; held = [] }) t
      → IsSafe (kernel_start - offset) (kernel_end - offset + total (s ∷ ss) - 1) t.held
        × Inside m t.mem kernel_end (kernel_end + total (s ∷ ss))
  init_pmm-IsSafe enough few zones o m0 {t} call reach =
      let k = init_pmm-Booted fuel kernel_start kernel_end offset m b es s ss boot enough few in
      let same : m0 ≡ k.mem = ap memory_of (sym call ∙ k.returns) in
      let d =
        Reach-IsDivided fuel enough kernel_end kernel_end (places (kernel_end + extent s) ss)
          (omega (arith, length-places (kernel_end + extent s) ss)) k.mem (Booted-IsSound k o)
          (rw same at reach) in
      (
        record {
          distinct = d.distinct;
          apart = λ a i.
              let f = d.no_more a (inr i) in
              available_apart _ _ (s ∷ ss) a (
                block-IsAvailable _ k.mem kernel_end f.zone f.block a (s ∷ ss) k.laid boot.sections
                  f.listed f.here f.clear);
        },
        λ a far.
            d.stays.outside a
              (λ z i. omega (arith, far, Laid-within _ k.mem kernel_end z (s ∷ ss) k.laid i))
            ∙ k.inside a far,
      )
