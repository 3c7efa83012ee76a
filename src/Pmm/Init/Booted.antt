-- ===== src/Pmm/Init/Booted.antt =====
-- What `init_pmm` of lumos/arch/i386/pmm.c leaves for the allocator.
use osd.Base.{ℕ, ◌+◌, ◌-◌, ◌^◌, ◌≤◌, ◌<◌, u32, bit_and, Memory, IsWords, Option, some}
use osd.Base.{Bool, Bool-cases, ap, ◌==◌, false, ◌≡◌, ◌≢◌, ◌⊎◌, inl, inr, refl, arith, ◌∙◌}
use osd.Base.{List, [], ◌∷◌, length}
use osd.Pmm.Zone.{IsZone, Zones, zone_next, zone_limit}
use osd.Pmm.Init.{
  mbt_flags, mbt_flag_is_mmap, mbt_mmap_addr, mbt_mmap_length, Boot, aborted, ready, init_pmm,
  scan_sections, reserve_zones,
}
use osd.Pmm.Init.Place.{Section, IsSection, extent, IsFresh, is_null, Inside}
use osd.Pmm.Init.Layout.{
  Entry, is_usable, sections_of, HasEntries, AllSections, total, link_to, Laid,
}
use osd.Pmm.Init.Sections.{Scanned, scan_sections-Scanned}
use osd.Pmm.Init.Kernel.{is_taken, AllClear, Taken, reserve_zones-Taken}

-- The addresses of the zones.
abbrev pub places : ℕ → List Section → List ℕ
places p [] = []
places p (s ∷ ss) = p ∷ places (p + extent s) ss

IsFresh-IsZone :
    (used : ℕ → Bool) (m : Memory) (z : ℕ) (s : Section)
    → z ≢ 0
    → IsSection s
    → IsFresh used m z s
    → IsZone m z
IsFresh-IsZone used m z s real v f = record {
  not_null = real;
  bitmap_at = f.laid.bitmap;
  bitmap_fits = ground (arith, f.laid.words, f.laid.length);
  hint = f.laid.last_offset;
  below_4g = omega (arith, f.laid.start, f.laid.length, v.within_4g);
  in_order = omega (arith, f.laid.start, f.laid.end, v.some_block);
  padding = λ j le lt. rw f.laid.bitmap (ground (arith, f.bits j, f.laid.length, f.laid.words));
}

length-sections_of : (es : List Entry) → length (sections_of es) ≤ length es
length-sections_of [] = omega arith
length-sections_of (e ∷ es) = elim (Bool-cases (is_usable e)) [
  | inl use_it ↦ rw use_it (omega (arith, length-sections_of es))
  | inr skip ↦ rw skip (omega (arith, length-sections_of es))
]

next_place :
    (used : Section → ℕ → Bool) (m : Memory) (p : ℕ) (s : Section) (ss : List Section)
    → Laid used m p (s ∷ ss)
    → (zone_next m p ≡ 0) ⊎ (zone_next m p ≡ zone_limit m p)
next_place used m p s [] l = inl l.1
next_place used m p s (x ∷ ss) l = inr (l.1 ∙ omega (arith, l.0.laid.words))

-- The zones that the function has laid are a list of zones for the allocator.
pub Laid-Zones :
    (used : Section → ℕ → Bool) (m : Memory) (p : ℕ) (ss : List Section)
    → p ≢ 0
    → AllSections ss
    → Laid used m p ss
    → Zones m (link_to p ss) (places p ss)
Laid-Zones used m p [] real v l = refl
Laid-Zones used m p (s ∷ ss) real v l = (
  refl,
  IsFresh-IsZone (used s) m p s real v.0 l.0,
  next_place used m p s ss l,
  rw l.1 (Laid-Zones used m (p + extent s) ss (omega arith) v.1 l.2),
)

-- How the function ends when there is a memory map: the zones of the usable sections stand behind the
-- kernel, and exactly the blocks with a byte of the kernel or of the zones, and block 0 at address
-- 0, are taken.
pub record Booted (kernel_start kernel_end offset : ℕ) (ss : List Section) (m : Memory)
    (r : Option Boot) : Type 0 where
  pub mem : Memory
  pub returns : r ≡ some (ready mem)
  pub laid :
      Laid (is_taken (kernel_start - offset) (kernel_end - offset + total ss - 1)) mem kernel_end ss
  pub zones : Zones mem kernel_end (places kernel_end ss)
  pub words : IsWords mem
  pub inside : Inside m mem kernel_end (kernel_end + total ss)

-- Without the flag for a memory map the function aborts.
pub init_pmm-aborted :
    (fuel kernel_start kernel_end offset : ℕ) (m : Memory) (b : ℕ)
    → bit_and (mbt_flags m b) mbt_flag_is_mmap ≡ 0
    → init_pmm fuel kernel_start kernel_end offset m b ≡ some aborted
unfolding init_pmm
init_pmm-aborted fuel kernel_start kernel_end offset m b none = rw none refl

-- What the function needs of the machine: words of 32 bits; the kernel lies at or above the offset; the
-- memory map, whose usable sections are `ss`, ends 24 bytes or more below the kernel's end; the zones
-- fit above it; each usable section holds a block and ends within 4 GiB, and neither the kernel nor
-- the zones reach into what is behind its last whole block.
pub record IsBootable (kernel_start kernel_end offset : ℕ) (m : Memory) (b : ℕ) (es : List Entry)
    (ss : List Section) : Type 0 where
  pub usable : sections_of es ≡ ss
  pub words : IsWords m
  pub has_map : bit_and (mbt_flags m b) mbt_flag_is_mmap ≢ 0
  pub low : offset ≤ kernel_start
  pub order : kernel_start < kernel_end
  pub room : kernel_end + total ss < 2 ^ 32
  pub apart : mbt_mmap_addr m b + mbt_mmap_length m b + offset + 24 ≤ kernel_end
  pub entries :
      HasEntries m
        (mbt_mmap_addr m b + offset)
        (mbt_mmap_addr m b + mbt_mmap_length m b + offset)
        es
  pub sections : AllSections ss
  pub clear : AllClear (kernel_start - offset) (kernel_end - offset + total ss - 1) ss

module _ (fuel kernel_start kernel_end offset : ℕ) (m : Memory) (b : ℕ) (es : List Entry)
    (s : Section) (ss : List Section)
    (boot : IsBootable kernel_start kernel_end offset m b es (s ∷ ss)) where
  abbrev first : ℕ
  first = mbt_mmap_addr m b + offset

  abbrev limit : ℕ
  limit = mbt_mmap_addr m b + mbt_mmap_length m b + offset

  abbrev res_start : ℕ
  res_start = kernel_start - offset

  abbrev res_end : ℕ
  res_end = kernel_end - offset + total (s ∷ ss) - 1

  scanned :
      2 ^ 20 + 128 < fuel
      → length es < fuel
      → Scanned 0 kernel_end 0 (s ∷ ss) m (
          scan_sections fuel kernel_end limit
            (record { section = first; zone = 0; size = 0; mem = m }))
  scanned enough few = rw boot.usable at (
      scan_sections-Scanned fuel kernel_end first limit es m enough few (omega arith) boot.apart
        boot.words boot.entries (rw boot.usable boot.sections) (rw boot.usable boot.room))

  reserved :
      2 ^ 20 + 128 < fuel
      → length es < fuel
      → (a : Memory) → IsWords a
      → Laid is_null a kernel_end (s ∷ ss)
      → Taken res_start res_end kernel_end
          (s ∷ ss)
          a
          (reserve_zones fuel res_start res_end kernel_end a)
  reserved enough few a w l =
      reserve_zones-Taken res_start res_end (omega arith) fuel kernel_end s ss a enough
        (omega (arith, ap length boot.usable, length-sections_of es)) (omega arith) (omega arith)
        boot.room w boot.sections boot.clear l

  -- On a bootable machine, and with fuel above 2 ^ 20 + 128 and above the number of entries, `init_pmm`
  -- returns. A machine is bootable if its memory is of 32-bit words; the kernel starts at or above the
  -- offset, and ends above its start; the boot information has the flag for a memory map; the map's
  -- entries follow each other up to the map's end, and that lies at least 24 bytes below the kernel's
  -- end; there is at least one usable section; each usable section has at least 4096 bytes and ends
  -- within 4 GiB; the bytes from the kernel's start to the end of the zones are all before a usable
  -- section, all behind it, or none of them behind its last whole block; and the zones fit between the
  -- kernel's end and 4 GiB. Then it has laid out one zone behind the other for each usable section;
  -- exactly the blocks that hold a byte of the kernel or of the zones, block 0 at address 0, and the
  -- padding are marked as used; the zones are a well-formed list for the allocator; and no word outside
  -- the zones has changed.
  pub init_pmm-Booted :
      2 ^ 20 + 128 < fuel
      → length es < fuel
      → Booted kernel_start kernel_end offset
          (s ∷ ss)
          m
          (init_pmm fuel kernel_start kernel_end offset m b)
  unfolding init_pmm
  init_pmm-Booted enough few =
      let at_first : u32 (mbt_mmap_addr m b + offset) ≡ first = omega arith in
      let at_limit : u32 (u32 (mbt_mmap_addr m b + mbt_mmap_length m b) + offset) ≡ limit =
        omega arith in
      let present : bit_and (mbt_flags m b) mbt_flag_is_mmap == 0 ≡ false =
        ground (arith, boot.has_map) in
      let scan = scanned enough few in
      let lo : u32 (kernel_start + 2 ^ 32 - offset) ≡ res_start = omega arith in
      let hi : u32 (u32 (kernel_end + 2 ^ 32 - offset) + 2 ^ 32 - 1 + scan.final.size) ≡ res_end =
        omega (arith, scan.counted) in
      let take = reserved enough few scan.final.mem scan.words scan.laid in
      rw (present, at_first, at_limit, scan.returns, lo, hi, take.returns)
        (record {
          mem = take.final.mem;
          returns = refl {a = some (ready take.final.mem)};
          laid = take.laid;
          zones =
              Laid-Zones _ take.final.mem kernel_end (s ∷ ss) (omega arith) boot.sections take.laid;
          words = take.words;
          inside = λ x h. elim h [
            | inl low ↦ take.below x low ∙ scan.below x low (inl refl)
            | inr high ↦ take.above x high ∙ scan.above x high
          ];
        })
