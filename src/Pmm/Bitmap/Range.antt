-- ===== src/Pmm/Bitmap/Range.antt =====
-- `set_bits` and `unset_bits` of lumos/arch/i386/pmm.c, over a whole range of bits.
use osd.Base.{ℕ, ◌+◌, ◌-◌, ◌*◌, ◌/◌, ◌%◌, ◌^◌, ◌≤◌, ◌<◌, full_word}
use osd.Base.{Memory, IsWords, store, ◌==◌, leb, ltb, ◌&&◌, Bool, true, false, if◌then◌else◌}
use osd.Base.{◌≡◌, refl, ◌∙◌, arith, inl, ◌⊎◌, Option, some, while_lem, Ends, while, u32, leb→le}
use osd.Base.Bits.{bit, bit-zero, bit-ones}
use osd.Pmm.Bitmap.{word_addr, set_bit, unset_bit, test_bit, Cursor, fill_bits, set_bits}
use osd.Pmm.Bitmap.{unset_bits, head_test, word_test, tail_test, bit_step, word_step}
use osd.Pmm.Bitmap.Single.{test_bit_lem, IsBitWrite, set_bit-IsBitWrite, unset_bit-IsBitWrite}

-- The bits from `lo` up to, but not including, `i` are `v`; the other bits of the map, the words
-- outside the range and the width of the words are those of `m`.
pub record IsFilled (v : Bool) (map lo i : ℕ) (m m' : Memory) : Type 0 where
  pub bits : (j : ℕ) → test_bit m' map j ≡ (if leb lo j && ltb j i then v else test_bit m map j)
  pub others : (a : ℕ) → (a < map + 4 * (lo / 32)) ⊎ (map + 4 * ((i + 31) / 32) ≤ a) → m' a ≡ m a
  pub words : IsWords m'

IsFilled-refl : (v : Bool) (map lo : ℕ) (m : Memory) → IsWords m → IsFilled v map lo lo m m
IsFilled-refl v map lo m w = record { bits = λ j. ground arith; others = λ a h. refl; words = w }

module _ (v : Bool) (map lo : ℕ) (m : Memory) where
  IsFilled-bit :
      (i : ℕ) (a b : Memory)
      → lo ≤ i
      → IsFilled v map lo i m a
      → IsBitWrite v map i a b
      → IsFilled v map lo (i + 1) m b
  IsFilled-bit i a b le f w = record {
    bits = λ j. ground (arith, f.bits j, w.bits j);
    others = λ x h. w.others x (ground arith) ∙ f.others x (ground arith);
    words = w.words;
  }

  IsFilled-word :
      (i all : ℕ) (a : Memory)
      → lo ≤ i
      → i % 32 ≡ 0
      → all < 2 ^ 32
      → ((k : ℕ) → k < 32 → (bit k all == 1) ≡ v)
      → IsFilled v map lo i m a
      → IsFilled v map lo (i + 32) m (store a (word_addr map i) all)
  IsFilled-word i all a le aligned lt ones f = record {
    bits = λ j.
        rw test_bit_lem
          (ground (arith, f.bits j, ones (j % 32) (omega arith), test_bit_lem a map j));
    others = λ x h. ground (arith, f.others x (ground arith));
    words = λ x. ground (arith, f.words x);
  }

-- How a range function ends: it returns, with exactly the bits `lo` to `hi` written.
pub record Fills (v : Bool) (map lo hi : ℕ) (m : Memory) (r : Option Memory) : Type 0 where
  pub mem : Memory
  pub returns : r ≡ some mem
  pub filled : IsFilled v map lo (hi + 1) m mem

-- What the loops need to know of the write of one bit and of one word.
record IsWriter (v : Bool) (one : Memory → ℕ → ℕ → Memory) (all : ℕ) : Type 0 where
  writes : (m : Memory) (map o : ℕ) → IsWords m → IsBitWrite v map o m (one m map o)
  all-lt : all < 2 ^ 32
  ones : (k : ℕ) → k < 32 → (bit k all == 1) ≡ v

module _ (v : Bool) (one : Memory → ℕ → ℕ → Memory) (all : ℕ) (writer : IsWriter v one all)
    (map lo hi : ℕ) (m : Memory) (no_wrap : hi + 33 < 2 ^ 32) where
  -- The invariant of the three loops.
  abbrev Within : Cursor → Type 0
  Within c = (lo ≤ c.i) × (c.i ≤ hi + 1) × IsFilled v map lo c.i m c.mem

  abbrev left : Cursor → ℕ
  left c = hi + 1 - c.i

  bit_step-Within :
      (c : Cursor)
      → Within c
      → leb c.i hi ≡ true
      → Within (bit_step one all map hi c) × (left (bit_step one all map hi c) < left c)
  unfolding bit_step
  bit_step-Within c h t =
      let below : c.i ≤ hi = leb→le c.i hi t in
      let e : u32 (c.i + 1) ≡ c.i + 1 = omega arith in
      let wrote : IsBitWrite v map c.i c.mem (one c.mem map c.i) =
        writer.writes c.mem map c.i h.2.words in
      rw e ((omega arith, omega arith, IsFilled-bit v map lo m c.i _ _ h.0 h.2 wrote), omega arith)

  word_step-Within :
      (c : Cursor)
      → Within c
      → c.i % 32 ≡ 0
      → word_test one all map hi c ≡ true
      → Within (word_step one all map hi c) × (left (word_step one all map hi c) < left c)
  unfolding word_step word_test
  word_step-Within c h al t =
      let below : u32 (c.i + 32) ≤ hi = leb→le _ hi t in
      let e : u32 (c.i + 32) ≡ c.i + 32 = omega arith in
      rw e (
        (
          omega arith,
          omega arith,
          IsFilled-word v map lo m c.i all c.mem h.0 al writer.all-lt writer.ones h.2,
        ),
        omega arith,
      )

  abbrev ByWords : Cursor → Type 0
  ByWords c = Within c × ((c.i % 32 ≡ 0) ⊎ (hi < c.i))

  word_step-ByWords :
      (c : Cursor)
      → ByWords c
      → word_test one all map hi c ≡ true
      → ByWords (word_step one all map hi c) × (left (word_step one all map hi c) < left c)
  unfolding word_step word_test
  word_step-ByWords c h t =
      let below : u32 (c.i + 32) ≤ hi = leb→le _ hi t in
      let aligned : c.i % 32 ≡ 0 = omega arith in
      let kept = word_step-Within c h.0 aligned t in ((kept.0, inl (omega arith)), kept.1)

  head-Ends :
      (fuel : ℕ)
      → hi + 1 < fuel
      → lo ≤ hi + 1
      → IsWords m
      → Ends Within (head_test one all map hi) (
          while fuel
            (head_test one all map hi)
            (bit_step one all map hi)
            (record { i = lo; mem = m }))
  unfolding head_test
  head-Ends fuel f le w =
      while_lem Within left (head_test one all map hi) (bit_step one all map hi)
        (λ c h t. bit_step-Within c h (ground arith)) fuel (record { i = lo; mem = m })
        (omega arith) (omega arith, omega arith, IsFilled-refl v map lo m w)

  word-Ends :
      (fuel : ℕ) (c : Cursor)
      → hi + 1 < fuel
      → Within c
      → head_test one all map hi c ≡ false
      → Ends Within
          (word_test one all map hi)
          (while fuel (word_test one all map hi) (word_step one all map hi) c)
  unfolding head_test
  word-Ends fuel c f h stop =
      let e =
        while_lem ByWords left (word_test one all map hi) (word_step one all map hi)
          word_step-ByWords fuel c (omega arith) (h, ground arith) in
      record { final = e.final; returns = e.returns; holds = e.holds.0; stopped = e.stopped }

  tail-Ends :
      (fuel : ℕ) (c : Cursor)
      → hi + 1 < fuel
      → Within c
      → Ends Within
          (tail_test one all map hi)
          (while fuel (tail_test one all map hi) (bit_step one all map hi) c)
  unfolding tail_test
  tail-Ends fuel c f h =
      while_lem Within left (tail_test one all map hi) (bit_step one all map hi)
        (λ c h t. bit_step-Within c h t) fuel c (omega arith) h

  at_end : (c : Cursor) → leb c.i hi ≡ false → hi < c.i
  at_end c h = ground arith

  fill_bits-Fills :
      (fuel : ℕ)
      → hi + 1 < fuel
      → lo ≤ hi + 1
      → IsWords m
      → Fills v map lo hi m (fill_bits one all map hi fuel m lo)
  unfolding fill_bits tail_test
  fill_bits-Fills fuel f le w =
      let a = head-Ends fuel f le w in
      let b = word-Ends fuel a.final f a.holds a.stopped in
      let c = tail-Ends fuel b.final f b.holds in
      let top : c.final.i ≡ hi + 1 = omega (arith, c.holds, at_end c.final c.stopped) in
      record {
        mem = c.final.mem;
        returns = rw (a.returns, b.returns, c.returns);
        filled = rw (← top) c.holds.2;
      }

set_bit-IsWriter : IsWriter true set_bit full_word
set_bit-IsWriter = record {
  writes = set_bit-IsBitWrite;
  all-lt = omega arith;
  ones = λ k h. ground (arith, bit-ones 32 k);
}

unset_bit-IsWriter : IsWriter false unset_bit 0
unset_bit-IsWriter = record {
  writes = unset_bit-IsBitWrite;
  all-lt = omega arith;
  ones = λ k h. ground (arith, bit-zero k);
}

module _ (fuel : ℕ) (m : Memory) (map lo hi : ℕ) (no_wrap : hi + 33 < 2 ^ 32)
    (enough : hi + 1 < fuel) (ordered : lo ≤ hi + 1) (words : IsWords m) where
  -- On a memory of 32-bit words, for a range from `lo` to `hi` with `lo` at most `hi + 1`, with
  -- `hi` at least 34 below 2 ^ 32 and fuel above `hi + 1`: `set_bits` returns, sets exactly the
  -- bits from `lo` to `hi`, and changes no other bit of the map and no word outside those of the
  -- range.
  pub set_bits-Fills : Fills true map lo hi m (set_bits fuel m map lo hi)
  unfolding set_bits
  set_bits-Fills =
      fill_bits-Fills true set_bit full_word set_bit-IsWriter map lo hi m no_wrap fuel enough
        ordered words

  -- On a memory of 32-bit words, for a range from `lo` to `hi` with `lo` at most `hi + 1`, with
  -- `hi` at least 34 below 2 ^ 32 and fuel above `hi + 1`: `unset_bits` returns, clears exactly the
  -- bits from `lo` to `hi`, and changes no other bit of the map and no word outside those of the
  -- range.
  pub unset_bits-Fills : Fills false map lo hi m (unset_bits fuel m map lo hi)
  unfolding unset_bits
  unset_bits-Fills =
      fill_bits-Fills false unset_bit 0 unset_bit-IsWriter map lo hi m no_wrap fuel enough ordered
        words
