-- ===== src/Libc/Itoa/Digits.antt =====
-- The first loop of `itoa` (libc/stdlib/itoa.c): the digits, lowest first.
use native.Mathlib.Nat.{div-lt_self}
use osd.Base.{ℕ, zero, suc, ◌+◌, ◌/◌, ◌%◌, ◌≤◌, ◌<◌, Memory, while, while_lem, Ends, ltb}
use osd.Base.{◌≡◌, ◌⊎◌, refl, arith, ap, true}
use osd.Libc.Itoa.{Writing, write_digit, digit_char}

-- The number after `k` divisions by the radix.
abbrev pub quotient : ℕ → ℕ → ℕ → ℕ
quotient radix num zero = num
quotient radix num (suc k) = quotient radix num k / radix

-- After `n` rounds the digits `0`, …, `n` - 1 stand in the buffer.
pub record IsWritten (radix num start : ℕ) (buf : Memory) (w : Writing) : Type 0 where
  pub n : ℕ
  pub at : w.i ≡ start + n
  pub rest : w.num ≡ quotient radix num n
  pub positive : (k : ℕ) → k < n → 0 < quotient radix num k
  pub digits : (k : ℕ) → k < n → w.buf (start + k) ≡ digit_char (quotient radix num k % radix)
  pub others : (a : ℕ) → (a < start) ⊎ (start + n ≤ a) → w.buf a ≡ buf a

module _ (radix num start : ℕ) (buf : Memory) (real : 2 ≤ radix) where
  shrinks : (x : ℕ) → 0 < x → x / radix < x
  shrinks x h = div-lt_self h real

  write_digit-IsWritten :
      (w : Writing)
      → IsWritten radix num start buf w
      → ltb 0 w.num ≡ true
      → IsWritten radix num start buf (write_digit radix w) × ((write_digit radix w).num < w.num)
  unfolding write_digit
  write_digit-IsWritten w h t =
      let left : 0 < w.num = ground arith in
      (
        record {
          n = suc h.n;
          at = omega (arith, h.at);
          rest = ap (λ (x : ℕ). x / radix) h.rest;
          positive = λ k p. ground (arith, h.positive k, h.rest, left);
          digits = λ k p. ground (arith, h.digits k, h.rest, h.at);
          others = λ a p. ground (arith, h.others a, h.at);
        },
        shrinks w.num left,
      )

  pub written :
      (fuel : ℕ)
      → num < fuel
      → Ends
          (IsWritten radix num start buf)
          (λ w. ltb 0 w.num)
          (while fuel
            (λ w. ltb 0 w.num)
            (write_digit radix)
            (record { num = num; i = start; buf = buf }))
  written fuel f =
      while_lem (IsWritten radix num start buf) (λ w. w.num) (λ w. ltb 0 w.num) (write_digit radix)
        write_digit-IsWritten fuel (record { num = num; i = start; buf = buf }) f
        (record {
          n = 0;
          at = omega arith;
          rest = refl;
          positive = λ k p. absurd (omega arith);
          digits = λ k p. absurd (omega arith);
          others = λ a p. refl;
        })
