-- ===== src/Libc/CeilPowTwo.antt =====
-- libc/utils/ceilPowTwo.c.
use native.Mathlib.Nat.{pow-le-pow_right, div-le_self}
use native.Mathlib.Decide.{dec_lt}
use osd.Base.{ℕ, zero, suc, ◌+◌, ◌-◌, ◌^◌, ◌≤◌, ◌<◌, u32, shr, bit_or}
use osd.Base.{◌≡◌, arith, refl}
use osd.Base.Bits.{
  bit, bit-lt, bit-or, bit-shr, bit-ones, bit_ext, bit_or-lt, bit-top, bit-above, leading,
}

-- `num |= num >> s`
pub smear : ℕ → ℕ → ℕ
smear s num = bit_or num (shr num s)

pub ceil_pow_two : ℕ → ℕ
ceil_pow_two num =
    let below = u32 (num + 2 ^ 32 - 1) in
    u32 (smear 16 (smear 8 (smear 4 (smear 2 (smear 1 below)))) + 1)

-- The `w` digits of `x` from place `k` down are 1, and there are none above it.
record TopOnes (k w x : ℕ) : Type 0 where
  ones : (j : ℕ) → j ≤ k → k < j + w → bit j x ≡ 1
  above : (j : ℕ) → k < j → bit j x ≡ 0

smear-TopOnes : (k w x : ℕ) → TopOnes k w x → TopOnes k (w + w) (smear w x)
unfolding smear
smear-TopOnes k w x t = record {
  ones = λ j p q. ground (
    arith,
    bit-or j x (shr x w),
    bit-shr w j x,
    t.ones j,
    t.ones (j + w),
    bit-lt j x,
    bit-lt (j + w) x,
    t.above (j + w),
  );
  above = λ j p. ground (arith, bit-or j x (shr x w), bit-shr w j x, t.above j, t.above (j + w));
}

smear_all : ℕ → ℕ
smear_all x = smear 16 (smear 8 (smear 4 (smear 2 (smear 1 x))))

smear_all-TopOnes : (k x : ℕ) → TopOnes k 1 x → TopOnes k 32 (smear_all x)
unfolding smear_all
smear_all-TopOnes k x t =
    smear-TopOnes k 16 _
      (smear-TopOnes k 8 _ (smear-TopOnes k 4 _ (smear-TopOnes k 2 _ (smear-TopOnes k 1 x t))))

smear-lt : (w x : ℕ) → x < 2 ^ 32 → smear w x < 2 ^ 32
unfolding smear
smear-lt w x h = bit_or-lt 32 x (shr x w) h (below h (div-le_self x (2 ^ w)))
  where
    below : {a b n : ℕ} → b < n → a ≤ b → a < n
    below p q = omega arith

smear_all-lt : (x : ℕ) → x < 2 ^ 32 → smear_all x < 2 ^ 32
unfolding smear_all
smear_all-lt x h = smear-lt 16 _ (smear-lt 8 _ (smear-lt 4 _ (smear-lt 2 _ (smear-lt 1 x h))))

first_digit : (k x : ℕ) → 2 ^ k ≤ x → x < 2 ^ suc k → TopOnes k 1 x
first_digit k x p q = record {
  ones = λ j a b. let same : j ≡ k = omega arith in rw same (bit-top k x p q);
  above = λ j a.
      bit-above j x
        (omega (arith, pow-le-pow_right {n = 2} (omega arith) {i = suc k} {j = j} (omega arith)));
}

-- Smearing the leading digit down fills the number with ones.
smear_all_lem : (k x : ℕ) → k < 32 → 2 ^ k ≤ x → x < 2 ^ suc k → smear_all x ≡ 2 ^ suc k - 1
smear_all_lem k x lt p q =
    let top = pow-le-pow_right {n = 2} (omega arith) {i = suc k} {j = 32} (omega arith) in
    let t = smear_all-TopOnes k x (first_digit k x p q) in
    bit_ext 32 (smear_all x) (2 ^ suc k - 1) (smear_all-lt x (omega arith)) (omega arith)
      λ j h. ground (arith, t.ones j, t.above j, bit-ones (suc k) j)

ceil_pow_two-one : ceil_pow_two 1 ≡ 2 ^ 0
unfolding ceil_pow_two smear
ceil_pow_two-one = refl

-- From 1 up to 2 ^ 31 the result is the least power of two that is not below the number.
pub ceil_pow_two_lem :
    (num : ℕ)
    → 1 ≤ num
    → num ≤ 2 ^ 31
    → (k : ℕ) × (ceil_pow_two num ≡ 2 ^ k) × (num ≤ 2 ^ k) × ((j : ℕ) → num ≤ 2 ^ j → 2 ^ k ≤ 2 ^ j)
unfolding ceil_pow_two smear_all
ceil_pow_two_lem zero p q = elim p [ ]
ceil_pow_two_lem (suc zero) p q = (0, ceil_pow_two-one, omega arith, λ j h. h)
ceil_pow_two_lem (suc (suc n)) p q =
    let (k, lt, lo, hi) = leading 31 (suc n) (omega arith) (omega arith) in
    let below : u32 (suc (suc n) + 2 ^ 32 - 1) ≡ suc n = omega arith in
    let top = pow-le-pow_right {n = 2} (omega arith) {i = suc k} {j = 31} (omega arith) in
    (
      suc k,
      rw below (omega (arith, smear_all_lem k (suc n) (omega arith) lo hi)),
      omega arith,
      λ j h. elim (dec_lt k j) [
        | yes more ↦ pow-le-pow_right {n = 2} (omega arith) more
        | no less ↦
            absurd
              (omega (arith, pow-le-pow_right {n = 2} (omega arith) {i = j} {j = k} (omega arith)))
      ],
    )
