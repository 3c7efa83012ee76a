-- ===== src/Pmm/Bitmap/Single.antt =====
-- `set_bit`, `unset_bit` and `test_bit` of lumos/arch/i386/pmm.c, bit by bit.
use native.Mathlib.Nat.{le_refl, one-le-pow, pow-le-pow_right}
use osd.Base.{ℕ, zero, suc, ◌+◌, ◌*◌, ◌/◌, ◌%◌, ◌^◌, ◌≤◌, ◌<◌, not32}
use osd.Base.{Memory, IsWords, ◌==◌, not, Bool, true, false, if◌then◌else◌}
use osd.Base.{◌≡◌, ◌≢◌, arith}
use osd.Base.Bits.{
  bit, bit-lt, bit-or, bit-and, bit-pow, bit-complement, bit_and-pow, bit_or-lt, bit_ext,
}
use osd.Base.Bits.{bit_and-le}
use osd.Pmm.Bitmap.{word, word_addr, mask, set_bit, unset_bit, test_bit}

selects : (b p : ℕ) → b < 2 → 1 ≤ p → not (b * p == 0) ≡ (b == 1)
selects zero p h q = ground arith
selects (suc zero) p h q = ground arith
selects (suc (suc b)) p h q = absurd (omega arith)

pub test_bit_lem :
    (m : Memory) (map j : ℕ) → test_bit m map j ≡ (bit (j % word) (m (word_addr map j)) == 1)
unfolding test_bit
test_bit_lem m map j =
    rw bit_and-pow (selects _ _ (bit-lt (j % word) _) (one-le-pow (j % word) 2 (omega arith)))

mask-lt : (j : ℕ) → mask j < 2 ^ 32
mask-lt j =
    omega (arith, pow-le-pow_right {n = 2} (omega arith) {i = j % word} {j = 31} (omega arith))

-- A write of one bit `o` of the map as `v`: the other bits, the other words and the width stay.
pub record IsBitWrite (v : Bool) (map o : ℕ) (m m' : Memory) : Type 0 where
  pub bits : (j : ℕ) → test_bit m' map j ≡ (if j == o then v else test_bit m map j)
  pub others : (a : ℕ) → a ≢ word_addr map o → m' a ≡ m a
  pub words : IsWords m'

pub set_bit-IsBitWrite :
    (m : Memory) (map o : ℕ) → IsWords m → IsBitWrite true map o m (set_bit m map o)
unfolding set_bit
set_bit-IsBitWrite m map o w = record {
  bits = λ j.
      rw (test_bit_lem, test_bit_lem)
        (ground (
          arith,
          bit-or (j % word) (m (word_addr map o)) (mask o),
          bit-pow (j % word) (o % word),
          bit-lt (j % word) (m (word_addr map j)),
        ));
  others = λ a ne. ground arith;
  words = λ a. ground (arith, w a, bit_or-lt 32 (m (word_addr map o)) (mask o) (w _) (mask-lt o));
}

pub unset_bit-IsBitWrite :
    (m : Memory) (map o : ℕ) → IsWords m → IsBitWrite false map o m (unset_bit m map o)
unfolding unset_bit
unset_bit-IsBitWrite m map o w = record {
  bits = λ j.
      rw (test_bit_lem, test_bit_lem)
        (ground (
          arith,
          bit-and (j % word) (m (word_addr map o)) (not32 (mask o)),
          bit-complement 32 (j % word) (mask o) (omega arith) (mask-lt o),
          bit-pow (j % word) (o % word),
          bit-lt (j % word) (m (word_addr map j)),
        ));
  others = λ a ne. ground arith;
  words = λ a. ground (
    arith,
    w a,
    w (word_addr map o),
    bit_and-le _ (m (word_addr map o)) (not32 (mask o)) (le_refl _),
  );
}

-- A bit is read from its own word alone.
pub test_bit_frame :
    (m m' : Memory) (map j : ℕ)
    → m' (word_addr map j) ≡ m (word_addr map j)
    → test_bit m' map j ≡ test_bit m map j
unfolding test_bit
test_bit_frame m m' map j e = rw e

same_digit : (a b : ℕ) → a < 2 → b < 2 → (a == 1) ≡ (b == 1) → a ≡ b
same_digit a b p q e = ground arith

-- Two memories whose maps have the same bits have the same words there.
pub test_bit_ext :
    (m m' : Memory) (map i : ℕ)
    → IsWords m
    → IsWords m'
    → ((j : ℕ) → test_bit m' map j ≡ test_bit m map j)
    → m' (word_addr map i) ≡ m (word_addr map i)
test_bit_ext m m' map i w w' h = bit_ext 32 _ _ (w' _) (w _) λ k lt.
    let here : (i / 32 * 32 + k) % 32 ≡ k = omega arith in
    let same : (i / 32 * 32 + k) / 32 ≡ i / 32 = omega arith in
    let e = rw (test_bit_lem m', test_bit_lem m, here, same) at (h (i / 32 * 32 + k)) in
    same_digit _ _ (bit-lt k _) (bit-lt k _) e
