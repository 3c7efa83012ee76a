-- ===== src/Libc/Itoa/Laws.antt =====
-- What `itoa` (libc/stdlib/itoa.c) leaves in the buffer.
use native.Mathlib.Nat.{div-lt_self, mod-lt, mod-add-div'}
use native.Mathlib.Decide.{dec_lt}
use osd.Base.{
  ℕ, zero, suc, ◌+◌, ◌-◌, ◌*◌, ◌/◌, ◌%◌, ◌^◌, ◌≤◌, ◌<◌, u32, Memory, store, Option, some, ltb, leb,
}
use osd.Base.{◌==◌, ◌&&◌, if◌then◌else◌, ◌≡◌, ◌≢◌, ◌⊎◌, arith, ap, ◌∙◌, sym, true, false}
use osd.Libc.Itoa.{itoa, write_number, digit_char, Writing}
use osd.Libc.Itoa.Digits.{quotient, IsWritten, written}
use osd.Libc.Itoa.Reverse.{reversed}

-- The value of a digit, and of the `n` digits from `at` on, read from left to right.
unfoldable pub digit_value : ℕ → ℕ
digit_value c = if leb c b'9' then c - b'0' else c - b'A' + 10

unfoldable pub read_number : ℕ → Memory → ℕ → ℕ → ℕ
read_number radix buf at zero = 0
read_number radix buf at (suc n) = read_number radix buf at n * radix + digit_value (buf (at + n))

digit_value-digit_char : (d : ℕ) → d < 36 → digit_value (digit_char d) ≡ d
unfolding digit_value digit_char
digit_value-digit_char d h = ground arith

digit_char-ne-zero : (d : ℕ) → d < 36 → digit_char d ≢ 0
unfolding digit_char
digit_char-ne-zero d h = ground arith

-- The text of `num` from index `start` on: `n` characters that are not 0, and a 0 behind them. Read
-- back they give the number, and nothing else is written.
pub record IsText (radix num start : ℕ) (buf out : Memory) : Type 0 where
  pub n : ℕ
  pub some_digit : 0 < n
  pub digits : (k : ℕ) → k < n → out (start + k) ≢ 0
  pub ended : out (start + n) ≡ 0
  pub value : read_number radix out start n ≡ num
  pub no_longer : 0 < quotient radix num (n - 1)
  pub others : (a : ℕ) → (a < start) ⊎ (start + n < a) → out a ≡ buf a

-- How a call ends.
pub record Writes (radix num start : ℕ) (buf : Memory) (r : Option Memory) : Type 0 where
  pub out : Memory
  pub returns : r ≡ some out
  pub text : IsText radix num start buf out

-- The digits from the highest down add up to the quotient that they stand for.
minus_self : (n : ℕ) → n - n ≡ 0
minus_self n = omega arith

n_minus : (n : ℕ) → n - 0 ≡ n
n_minus n = omega arith

one_more : (n k : ℕ) → suc k ≤ n → n - k ≡ suc (n - suc k)
one_more n k h = omega arith

-- There are at most as many digits as the number says.
quotient-add-le :
    (radix num k : ℕ)
    → 2 ≤ radix
    → ((j : ℕ) → j < k → 0 < quotient radix num j)
    → quotient radix num k + k ≤ num
quotient-add-le radix num zero lo pos = omega arith
quotient-add-le radix num (suc k) lo pos = omega (
  arith,
  quotient-add-le radix num k lo (λ j h. pos j (omega arith)),
  div-lt_self {n = quotient radix num k} {k = radix} (pos k (omega arith)) lo,
)

read_number-quotient :
    (radix num start n k : ℕ) (out : Memory)
    → 2 ≤ radix
    → radix ≤ 36
    → quotient radix num n ≡ 0
    → ((j : ℕ) → j < n → out (start + j) ≡ digit_char (quotient radix num (n - 1 - j) % radix))
    → k ≤ n
    → read_number radix out start k ≡ quotient radix num (n - k)
unfolding read_number
read_number-quotient radix num start n zero out lo hi top cells h =
    sym (ap (quotient radix num) (n_minus n) ∙ top)
read_number-quotient radix num start n (suc k) out lo hi top cells h =
    let q = quotient radix num (n - suc k) in
    let before : quotient radix num (n - k) ≡ q / radix =
      ap (quotient radix num) (one_more n k h) in
    let ih = read_number-quotient radix num start n k out lo hi top cells (omega arith) ∙ before in
    let same : n - 1 - k ≡ n - suc k = omega arith in
    let char = rw same at (cells k h) in
    let digit : q % radix < 36 = omega (arith, mod-lt q {m = radix} (omega arith)) in
    rw (ih, char, digit_value-digit_char (q % radix) digit) (omega (arith, mod-add-div' q radix))

module _ (num radix start : ℕ) (buf : Memory) (lo : 2 ≤ radix) (hi : radix ≤ 36) (pos : 0 < num)
    (w : Writing) (h : IsWritten radix num start buf w) (stop : ltb 0 w.num ≡ false) (out : Memory)
    (reverse : (k : ℕ)
      → out k ≡ (
          if leb start k && ltb k (start + h.n)
          then store w.buf (start + h.n) 0 (start + (start + h.n) - 1 - k)
          else store w.buf (start + h.n) 0 k)) where
  top : quotient radix num h.n ≡ 0
  top = omega (arith, h.rest, none_left)
    where
      none_left : w.num ≡ 0
      none_left = ground arith

  nonempty : 0 < h.n
  nonempty = elim (dec_lt 0 h.n) [
    | yes p ↦ p
    | no p ↦ let none : h.n ≡ 0 = omega arith in absurd (omega (arith, pos, rw none at top))
  ]

  cell : (j : ℕ) → j < h.n → out (start + j) ≡ digit_char (quotient radix num (h.n - 1 - j) % radix)
  cell j p =
      let from : start + (start + h.n) - 1 - (start + j) ≡ start + (h.n - 1 - j) = omega arith in
      ground (arith, rw from at (reverse (start + j)), h.digits (h.n - 1 - j))

  text : IsText radix num start buf out
  text = record {
    n = h.n;
    some_digit = nonempty;
    digits = λ k p z.
        digit_char-ne-zero (quotient radix num (h.n - 1 - k) % radix)
          (omega (arith, mod-lt (quotient radix num (h.n - 1 - k)) {m = radix} (omega arith)))
          (sym (cell k p) ∙ z);
    ended = ground (arith, reverse (start + h.n));
    value =
        read_number-quotient radix num start h.n h.n out lo hi top cell (omega arith)
        ∙ ap (quotient radix num) (minus_self h.n);
    no_longer = h.positive (h.n - 1) (omega (arith, nonempty));
    others = λ a p. ground (arith, reverse a, h.others a, nonempty);
  }

pub write_number-Writes :
    (fuel num radix start : ℕ) (buf : Memory)
    → 2 ≤ radix
    → radix ≤ 36
    → 0 < num
    → num + start < fuel
    → Writes radix num start buf (write_number fuel num radix start buf)
unfolding write_number
write_number-Writes fuel num radix start buf lo hi pos f =
    let w = written radix num start buf lo fuel (omega arith) in
    let h = w.holds in
    let few = quotient-add-le radix num h.n lo h.positive in
    let r =
      reversed start (start + h.n) (store w.final.buf (start + h.n) 0) fuel (omega (arith, few))
        (omega arith) in
    record {
      out = (r.0).buf;
      returns = rw (w.returns, h.at, r.1);
      text = text num radix start buf lo hi pos w.final h w.stopped (r.0).buf r.2;
    }

pub itoa-Writes :
    (fuel num : ℕ) (buf : Memory) (radix : ℕ)
    → 2 ≤ radix
    → radix ≤ 36
    → 0 < num
    → (radix ≢ 10) ⊎ (num < 2 ^ 31)
    → num < fuel
    → Writes radix num 0 buf (itoa fuel num buf radix)
unfolding itoa
itoa-Writes fuel num buf radix lo hi pos plain f =
    let real : num == 0 ≡ false = ground arith in
    let unsigned : (radix == 10) && leb (2 ^ 31) num ≡ false = ground arith in
    rw (real, unsigned) (write_number-Writes fuel num radix 0 buf lo hi pos (omega arith))

-- For radix 10, with fuel above 2 ^ 31 + 1, a 32-bit number with the top bit set is written as a
-- minus sign and its negation.
pub itoa-negative :
    (fuel num : ℕ) (buf : Memory)
    → 2 ^ 31 ≤ num
    → num < 2 ^ 32
    → 2 ^ 31 + 1 < fuel
    → Writes 10 (2 ^ 32 - num) 1 (store buf 0 b'-') (itoa fuel num buf 10)
unfolding itoa
itoa-negative fuel num buf lo hi f =
    let real : num == 0 ≡ false = ground arith in
    let negative : leb (2 ^ 31) num ≡ true = ground arith in
    let value : u32 (2 ^ 32 - num) ≡ 2 ^ 32 - num = omega arith in
    rw (real, negative, value)
      (write_number-Writes fuel (2 ^ 32 - num) 10 1 (store buf 0 b'-') (omega arith) (omega arith)
        (omega arith) (omega arith))
