-- ===== src/Libc/Itoa/Width.antt =====
-- How long the text is that `itoa` (libc/stdlib/itoa.c) writes.
use native.Mathlib.Nat.{le_refl, div-le_self}
use native.Mathlib.Decide.{dec_lt, ℕ_discrete}
use osd.Base.{ℕ, zero, suc, ◌+◌, ◌-◌, ◌^◌, ◌≤◌, ◌<◌, Memory, store, Option, some}
use osd.Base.{◌≡◌, ◌≢◌, ◌⊎◌, inl, inr, refl, arith}
use osd.Libc.Itoa.{itoa}
use osd.Libc.Itoa.Digits.{quotient}
use osd.Libc.Itoa.Laws.{IsText, Writes, itoa-Writes, itoa-negative}

quotient-le : (radix num n k : ℕ) → n ≤ k → quotient radix num k ≤ quotient radix num n
quotient-le radix num n zero h = let none : n ≡ 0 = omega arith in rw none (le_refl num)
quotient-le radix num n (suc k) h = elim (dec_lt n (suc k)) [
  | yes less ↦
      omega
        (arith, quotient-le radix num n k (omega arith), div-le_self (quotient radix num k) radix)
  | no more ↦ let same : n ≡ suc k = omega arith in rw same (le_refl _)
]

-- The three radices of `printf`.
abbrev pub IsPrintfRadix : ℕ → Type 0
IsPrintfRadix radix = (radix ≡ 8) ⊎ ((radix ≡ 10) ⊎ (radix ≡ 16))

pub few_digits :
    (radix num : ℕ)
    → IsPrintfRadix radix
    → num < 2 ^ 32
    → (quotient radix num 11 ≡ 0) × ((radix ≡ 10) → quotient radix num 10 ≡ 0)
few_digits radix num (inl e) h = rw e (omega arith, λ f. absurd (omega arith))
few_digits radix num (inr (inl e)) h = rw e (omega arith, λ f. omega arith)
few_digits radix num (inr (inr e)) h = rw e (omega arith, λ f. absurd (omega arith))

pub IsText-length :
    (radix num start most : ℕ) (buf out : Memory) (t : IsText radix num start buf out)
    → quotient radix num most ≡ 0
    → t.n ≤ most
IsText-length radix num start most buf out t none = elim (dec_lt most t.n) [
  | yes more ↦
      absurd (omega (arith, t.no_longer, quotient-le radix num most (t.n - 1) (omega arith)))
  | no less ↦ omega arith
]

-- How a call with one of the radices of `printf` ends: within a buffer of 12 characters.
pub record Fits (buf : Memory) (r : Option Memory) : Type 0 where
  pub result : Memory
  pub returned : r ≡ some result
  pub beyond : (a : ℕ) → 12 ≤ a → result a ≡ buf a

Writes-Fits :
    (radix num start most : ℕ) (buf : Memory) (r : Option Memory)
    → quotient radix num most ≡ 0
    → start + most < 12
    → Writes radix num start buf r
    → Fits buf r
Writes-Fits radix num start most buf r none small w =
    let t = w.text in
    let short = IsText-length radix num start most buf w.out t none in
    record {
      result = w.out;
      returned = w.returns;
      beyond = λ a h. t.others a (inr (omega (arith, short)));
    }

pub itoa-zero_eq :
    (fuel : ℕ) (buf : Memory) (radix : ℕ)
    → itoa fuel 0 buf radix ≡ some (store (store buf 0 b'0') 1 0)
unfolding itoa
itoa-zero_eq fuel buf radix = refl

itoa-zero : (fuel : ℕ) (buf : Memory) (radix : ℕ) → Fits buf (itoa fuel 0 buf radix)
unfolding itoa
itoa-zero fuel buf radix = record {
  result = store (store buf 0 b'0') 1 0;
  returned = refl;
  beyond = λ a h. ground arith;
}

negative-Fits :
    (fuel num : ℕ) (buf : Memory)
    → num < 2 ^ 32
    → 2 ^ 31 ≤ num
    → 2 ^ 31 + 1 < fuel
    → Fits buf (itoa fuel num buf 10)
negative-Fits fuel num buf h top f =
    let fits =
      Writes-Fits 10 (2 ^ 32 - num) 1 10 (store buf 0 b'-') _
        ((few_digits 10 (2 ^ 32 - num) (inr (inl refl)) (omega arith)).1 refl) (omega arith)
        (itoa-negative fuel num buf top h f) in
    record {
      result = fits.result;
      returned = fits.returned;
      beyond = λ a p. ground (arith, fits.beyond a p);
    }

pub itoa_sign : (radix num : ℕ) → ((radix ≢ 10) ⊎ (num < 2 ^ 31)) ⊎ ((radix ≡ 10) × (2 ^ 31 ≤ num))
itoa_sign radix num = elim (ℕ_discrete radix 10) [
  | yes ten ↦ elim (dec_lt num (2 ^ 31)) [
    | yes small ↦ inl (inr small)
    | no big ↦ inr (ten, omega arith)
  ]
  | no other ↦ inl (inl other)
]

-- With radix 8, 10 or 16, and fuel above 2 ^ 32, the text of every 32-bit number fits the 12
-- characters that `printf` and `logf` have for it: nothing behind them is written.
pub itoa-Fits :
    (fuel num : ℕ) (buf : Memory) (radix : ℕ)
    → IsPrintfRadix radix
    → num < 2 ^ 32
    → 2 ^ 32 < fuel
    → Fits buf (itoa fuel num buf radix)
itoa-Fits fuel num buf radix r h f = elim (ℕ_discrete num 0) [
  | yes none ↦ rw none (itoa-zero fuel buf radix)
  | no real ↦ elim (itoa_sign radix num) [
    | inl plain ↦ Writes-Fits radix num 0 11 buf _ (few_digits radix num r h).0 (omega arith) (
        itoa-Writes fuel num buf radix (omega arith) (omega arith) (omega arith) plain
          (omega arith))
    | inr (ten, top) ↦ rw ten (negative-Fits fuel num buf h top (omega arith))
  ]
]
