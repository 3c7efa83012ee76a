-- ===== src/Pmm/Init/Place/Fresh.antt =====
-- A section of the memory map, and a new zone for it as `init_pmm` of lumos/arch/i386/pmm.c lays it
-- out: the fields and the bitmap.
use osd.Base.{ℕ, ◌+◌, ◌-◌, ◌*◌, ◌/◌, ◌^◌, ◌≤◌, ◌<◌, Memory, IsWords, Option, some}
use osd.Base.{leb, ◌==◌, ◌&&◌, ◌||◌, Bool}
use osd.Base.{◌≡◌, ◌≢◌, ◌⊎◌, inl, arith, ◌∙◌}
use osd.Pmm.Bitmap.{word, test_bit}
use osd.Pmm.Bitmap.Single.{test_bit_frame}
use osd.Pmm.Bitmap.Range.{IsFilled}
use osd.Pmm.Zone.{
  zone_start, zone_end, zone_length, zone_free, zone_last_offset, zone_bitmap_words, zone_bitmap,
  zone_next, ceil, ceil_bounds, block_size,
}

-- The part of a section that is below 4 GiB.
pub record Section : Type 0 where
  pub base : ℕ
  pub size : ℕ

-- The blocks of its zone, the words of the bitmap, and the bytes for the struct and the bitmap.
abbrev pub blocks : Section → ℕ
blocks s = s.size / block_size

abbrev pub map_words : Section → ℕ
map_words s = ceil (blocks s) word

abbrev pub extent : Section → ℕ
extent s = 32 + 4 * map_words s

-- A section that holds a block and ends within 4 GiB.
pub record IsSection (s : Section) : Type 0 where
  pub some_block : block_size ≤ s.size
  pub within_4g : s.base + s.size ≤ 2 ^ 32

pub IsSection-bounds :
    {s : Section}
    → IsSection s
    → (1 ≤ blocks s)
      × (blocks s ≤ 2 ^ 20)
      × (blocks s ≤ map_words s * 32)
      × (map_words s * 32 < blocks s + 32)
IsSection-bounds {s} v = omega (arith, v.some_block, v.within_4g, ceil_bounds (blocks s))

-- The fields of the zone at `z` but for the link to the next.
pub record IsLaid (m : Memory) (z : ℕ) (s : Section) : Type 0 where
  pub start : zone_start m z ≡ s.base
  pub end : zone_end m z ≡ s.base + s.size - 1
  pub length : zone_length m z ≡ blocks s
  pub free : zone_free m z ≡ blocks s
  pub last_offset : zone_last_offset m z ≡ 0
  pub words : zone_bitmap_words m z ≡ map_words s
  pub bitmap : zone_bitmap m z ≡ z + 32

-- The memories differ from `lo` up to `hi` alone.
abbrev pub Inside : Memory → Memory → ℕ → ℕ → Type 0
Inside m m' lo hi = (a : ℕ) → (a < lo) ⊎ (hi ≤ a) → m' a ≡ m a

-- Behind the fields, a bit for each block says whether `used` holds of it; the padding is set.
pub record IsFresh (used : ℕ → Bool) (m : Memory) (z : ℕ) (s : Section) : Type 0 where
  pub laid : IsLaid m z s
  pub bits : (j : ℕ) → j < map_words s * 32 → test_bit m (z + 32) j ≡ (leb (blocks s) j || used j)

pub IsLaid-frame :
    {m m' : Memory} {z : ℕ} {s : Section}
    → ((x : ℕ) → z ≤ x → x < z + 28 → m' x ≡ m x)
    → IsLaid m z s
    → IsLaid m' z s
IsLaid-frame {m} {m'} {z} {s} same l = record {
  start = same z (omega arith) (omega arith) ∙ l.start;
  end = same (z + 4) (omega arith) (omega arith) ∙ l.end;
  length = same (z + 8) (omega arith) (omega arith) ∙ l.length;
  free = same (z + 12) (omega arith) (omega arith) ∙ l.free;
  last_offset = same (z + 16) (omega arith) (omega arith) ∙ l.last_offset;
  words = same (z + 20) (omega arith) (omega arith) ∙ l.words;
  bitmap = same (z + 24) (omega arith) (omega arith) ∙ l.bitmap;
}

pub IsFresh-frame :
    {used : ℕ → Bool} {m m' : Memory} {z : ℕ} {s : Section}
    → ((x : ℕ) → z ≤ x → x < z + extent s → x ≢ z + 28 → m' x ≡ m x)
    → IsFresh used m z s
    → IsFresh used m' z s
IsFresh-frame {used} {m} {m'} {z} {s} same f = record {
  laid = IsLaid-frame (λ x lo hi. same x lo (omega arith) (omega arith)) f.laid;
  bits = λ j lt.
      test_bit_frame m m' (z + 32) j (same _ (omega arith) (omega arith) (omega arith))
      ∙ f.bits j lt;
}

-- Block 0 of a section at address 0 is the null pointer.
abbrev pub is_null : Section → ℕ → Bool
is_null s j = s.base == 0 && (j == 0)

-- What a place in memory for a new zone becomes.
pub record Placed (m : Memory) (z : ℕ) (s : Section) (r : Option Memory) : Type 0 where
  pub mem : Memory
  pub returns : r ≡ some mem
  pub fresh : IsFresh (is_null s) mem z s
  pub next : zone_next mem z ≡ 0
  pub inside : Inside m mem z (z + extent s)
  pub words : IsWords mem

pub IsFilled-Inside :
    {v : Bool} (z : ℕ) {lo hi : ℕ} {m m' : Memory} (s : Section)
    → hi < map_words s * 32
    → IsFilled v (z + 32) lo (hi + 1) m m'
    → Inside m m' (z + 32) (z + extent s)
IsFilled-Inside z s below f x h = f.others x (omega arith)

pub Inside-IsLaid :
    {m m' : Memory} {z : ℕ} {s : Section}
    → Inside m m' (z + 32) (z + extent s)
    → IsLaid m z s
    → IsLaid m' z s
Inside-IsLaid inside l = IsLaid-frame (λ x lo hi. inside x (inl (omega arith))) l
