-- ===== src/Pmm/Session/Calls.antt =====
-- `pmm_alloc` and `pmm_free` of lumos/arch/i386/pmm.c as operations on a set of free addresses.
use osd.Base.{ℕ, ◌+◌, ◌^◌, ◌<◌, Memory, IsWords, Option, some, List, ◌∷◌, length}
use osd.Base.{true, false, ◌≡◌, ◌≢◌, ◌⊎◌, ◌↔◌, inl, inr, refl, arith, sym}
use native.Mathlib.Decide.{ℕ_discrete}
use osd.Pmm.Zone.{zone_start, block_size, get_offset, Zones}
use osd.Pmm.Alloc.{pmm_alloc, pmm_free, mark_free}
use osd.Pmm.Alloc.Mark.{mark_free-IsMarked, IsMarked-Zones}
use osd.Pmm.Alloc.Laws.{Allocated, Exhausted, pmm_alloc-Ended}
use osd.Pmm.Alloc.Free.{pmm_free_lem}
use osd.Pmm.Session.{IsBlock, IsFree, IsDisjoint}
use osd.Pmm.Session.FreeSet.{
  Stays, Stays-refl, IsMarked-Stays, IsMarked-Changed, Changed-IsDisjoint, IsFree-before,
  IsFree-other, IsFree-same,
}

-- A memory of words with a well-formed list of zones at `p` that share no block, where the null
-- pointer is not free.
pub record IsSound (m : Memory) (p : ℕ) (zs : List ℕ) : Type 0 where
  pub zones : Zones m p zs
  pub words : IsWords m
  pub disjoint : IsDisjoint m zs
  pub null_taken : ¬ IsFree m zs 0

-- How an allocation ends: one free address is taken from the set and handed out, or there is none in
-- the zone that is searched, and nothing changes.
pub record Takes (m : Memory) (p : ℕ) (zs : List ℕ) (r : Option (ℕ × Memory)) : Type 0 where
  pub addr : ℕ
  pub mem : Memory
  pub returns : r ≡ some (addr, mem)
  pub sound : IsSound mem p zs
  pub stays : Stays m zs mem
  pub outcome :
      ((addr ≡ 0) × (mem ≡ m) × Exhausted m zs)
      ⊎ ((addr ≢ 0) × IsFree m zs addr × ((a : ℕ) → IsFree mem zs a ↔ (IsFree m zs a × (a ≢ addr))))

-- How giving an address back ends: it is added to the set.
pub record Gives (m : Memory) (p : ℕ) (zs : List ℕ) (addr : ℕ) (r : Option Memory) : Type 0 where
  pub mem : Memory
  pub returns : r ≡ some mem
  pub sound : IsSound mem p zs
  pub stays : Stays m zs mem
  pub outcome : (a : ℕ) → IsFree mem zs a ↔ (IsFree m zs a ⊎ (a ≡ addr))

module _ (fuel : ℕ) (enough : 2 ^ 20 + 128 < fuel) (m : Memory) (p : ℕ) where
  took :
      (zs : List ℕ) (addr : ℕ) (m' : Memory)
      → IsSound m p zs
      → Allocated m zs addr m'
      → Zones m' p zs
      → IsWords m'
      → Takes m p zs (some (addr, m'))
  took zs addr m' s a l w =
      let here : IsBlock m a.zone a.block addr = (a.in_zone, a.address) in
      let c =
        IsMarked-Changed true _ m m' p a.zone a.block zs s.zones a.listed a.in_zone a.marked in
      let before = IsFree-before true m m' zs a.zone a.block addr a.listed here s.disjoint c in
      let other = IsFree-other true m m' zs a.zone a.block addr a.listed here s.disjoint c in
      let free : IsFree m zs addr = record {
        zone = a.zone;
        block = a.block;
        listed = a.listed;
        here = here;
        clear = a.was_free;
      } in
      let kept = λ (x : ℕ) (f : IsFree m' zs x).
        let r : IsFree m zs x × (x ≢ addr) = elim (before x f) [ inl y ↦ y | inr y ↦ cc ] in r in
      record {
        addr = addr;
        mem = m';
        returns = refl;
        sound = record {
          zones = l;
          words = w;
          disjoint = Changed-IsDisjoint true m m' zs a.zone a.block addr a.listed here s.disjoint c;
          null_taken = λ f. s.null_taken (kept 0 f).0;
        };
        stays = IsMarked-Stays true _ m m' p a.zone a.block zs s.zones a.listed a.in_zone a.marked;
        outcome =
            inr
              (λ e. s.null_taken (rw e at free), free, λ x. (λ f. kept x f, λ f. other x f.0 f.1));
      }

  -- On a sound memory, with fuel above 2 ^ 20 + 128 and above the number of zones, `pmm_alloc` takes
  -- one address, not null, from the set of free addresses and hands it out, or returns the null pointer and changes nothing, since the zone that it
  -- searches has no free block or no zone counts one; the memory stays sound, the zones keep their
  -- extent, and no word outside them changes.
  pub pmm_alloc-Takes :
      (zs : List ℕ) → IsSound m p zs → length zs < fuel → Takes m p zs (pmm_alloc fuel m p)
  pmm_alloc-Takes zs s few =
      let e = pmm_alloc-Ended fuel m s.words enough p zs s.zones few in
      elim e.outcome [
        | inl nothing ↦ record {
          addr = e.addr;
          mem = e.mem;
          returns = e.returns;
          sound = rw nothing.1 s;
          stays = rw nothing.1 (Stays-refl m zs);
          outcome = inl nothing;
        }
        | inr a ↦ rw e.returns (took zs e.addr e.mem s a e.zones e.words)
      ]

  -- On a sound memory, with fuel above 2 ^ 20 + 128, `pmm_free` of a block of the first zone other than
  -- the null pointer adds its address to the set of free addresses, and changes no other; the memory stays sound, the
  -- zones keep their extent, and no word outside them changes.
  pub pmm_free-Gives :
      (z i addr : ℕ) (zs : List ℕ)
      → IsSound m p (z ∷ zs)
      → IsBlock m z i addr
      → addr ≢ 0
      → Gives m p (z ∷ zs) addr (pmm_free fuel m p addr)
  pmm_free-Gives z i addr zs s here ne =
      let zone = s.zones.1 in
      let offset : get_offset (zone_start m z) addr block_size ≡ i = omega (arith, zone.below_4g) in
      let k = mark_free-IsMarked m s.words z i zone in
      let c =
        IsMarked-Changed false _ m (mark_free m z i) p z i (z ∷ zs) s.zones (inl refl) here.0 k in
      let before = IsFree-before false m _ (z ∷ zs) z i addr (inl refl) here s.disjoint c in
      let other = IsFree-other false m _ (z ∷ zs) z i addr (inl refl) here s.disjoint c in
      let same = IsFree-same false m _ (z ∷ zs) z i addr (inl refl) here s.disjoint c refl in
      let old = λ (x : ℕ) (f : IsFree (mark_free m z i) (z ∷ zs) x) (off : x ≢ addr).
        let r : IsFree m (z ∷ zs) x = elim (before x f) [
          | inl y ↦ y.0
          | inr y ↦ absurd (off y.0)
        ] in
        r in
      let now = λ (x : ℕ) (f : IsFree (mark_free m z i) (z ∷ zs) x).
        let r : IsFree m (z ∷ zs) x ⊎ (x ≡ addr) = elim (before x f) [
          | inl y ↦ inl y.0
          | inr y ↦ inr y.0
        ] in
        r in
      let then_ = λ (x : ℕ) (f : IsFree m (z ∷ zs) x).
        let r : IsFree (mark_free m z i) (z ∷ zs) x = elim (ℕ_discrete x addr) [
          | yes e ↦ rw e same
          | no off ↦ other x f off
        ] in
        r in
      rw (pmm_free_lem fuel m p z zs s.zones (omega arith) addr, offset)
        (record {
          mem = mark_free m z i;
          returns = refl;
          sound = record {
            zones = IsMarked-Zones k zone here.0 p (z ∷ zs) s.zones (inl refl);
            words = k.words;
            disjoint = Changed-IsDisjoint false m _ (z ∷ zs) z i addr (inl refl) here s.disjoint c;
            null_taken = λ f. s.null_taken (old 0 f (λ e. ne (sym e)));
          };
          stays =
              IsMarked-Stays false _ m (mark_free m z i) p z i (z ∷ zs) s.zones (inl refl) here.0 k;
          outcome = λ a. (λ f. now a f, λ f. elim f [ inl y ↦ then_ a y | inr e ↦ rw e same ]);
        })
