-- ===== src/Libc/Format/Numbers.antt =====
-- The text of a number in `printf` and `logf` (libc/stdio), through `itoa` and `strlen`.
use native.Mathlib.Decide.{ℕ_discrete}
use osd.Base.{
  ℕ, zero, suc, ◌+◌, ◌-◌, ◌*◌, ◌^◌, ◌≤◌, ◌<◌, Memory, store, List, [], ◌∷◌, ◌++◌, length,
}
use osd.Base.{Bool, Option, some, leb, ◌==◌, ◌&&◌, if◌then◌else◌, inl, inr}
use osd.Base.{◌≡◌, ◌≢◌, ◌∙◌, ap, refl, arith, true, false}
use osd.Libc.Str.Laws.{strlen_lem}
use osd.Libc.Itoa.{itoa}
use osd.Libc.Itoa.Laws.{digit_value, read_number, IsText, Writes, itoa-Writes, itoa-negative}
use osd.Libc.Itoa.Width.{IsPrintfRadix, few_digits, IsText-length, itoa_sign, itoa-zero_eq}
use osd.Libc.Format.{number_text}
use osd.Base.{chars}

-- The value of digits read from left to right, after a value read before them.
pub read_digits : ℕ → ℕ → List ℕ → ℕ
read_digits radix before [] = before
read_digits radix before (c ∷ cs) = read_digits radix (before * radix + digit_value c) cs

read_digits-chars :
    (radix : ℕ) (m : Memory) (a k n : ℕ)
    → read_digits radix (read_number radix m a k) (chars m (a + k) n)
      ≡ read_number radix m a (k + n)
unfolding read_digits chars read_number
read_digits-chars radix m a k zero = ap (λ i. read_number radix m a i) (omega arith)
read_digits-chars radix m a k (suc n) =
    let next : a + k + 1 ≡ a + suc k = omega arith in
    let count : k + suc n ≡ suc k + n = omega arith in
    rw (next, count) (read_digits-chars radix m a (suc k) n)

value-chars :
    (radix : ℕ) (m : Memory) (a n : ℕ) → read_digits radix 0 (chars m a n) ≡ read_number radix m a n
unfolding read_number
value-chars radix m a n =
    ap (λ (i : ℕ). read_digits radix 0 (chars m i n)) (omega arith)
    ∙ read_digits-chars radix m a 0 n
    ∙ ap (read_number radix m a) (omega arith)

chars-suc : (m : Memory) (n : ℕ) → chars m 0 (suc n) ≡ m 0 ∷ chars m 1 n
unfolding chars
chars-suc m n = refl

value-zero :
    (radix : ℕ) (m : Memory) → read_digits radix 0 (chars (store (store m 0 b'0') 1 0) 0 1) ≡ 0
unfolding read_digits chars digit_value
value-zero radix m = omega arith

length-chars : (m : Memory) (a n : ℕ) → length (chars m a n) ≡ n
unfolding chars
length-chars m a zero = refl
length-chars m a (suc n) = ap suc (length-chars m (a + 1) n)

-- For radix 10 the C code takes a word with the top bit set as a negative number.
abbrev pub is_negative : ℕ → ℕ → Bool
is_negative radix num = (radix == 10) && leb (2 ^ 31) num

-- A sign where the number is negative, and digits that give its absolute value; with the zero behind
-- them they fit the buffer of 12 characters.
pub record IsNumberText (radix num : ℕ) (r : Option (List ℕ)) : Type 0 where
  pub digits : List ℕ
  pub returned : r ≡ some ((if is_negative radix num then b'-' ∷ [] else []) ++ digits)
  pub value : read_digits radix 0 digits ≡ (if is_negative radix num then 2 ^ 32 - num else num)
  pub short : length digits + (if is_negative radix num then 1 else 0) < 12

module _ (fuel : ℕ) (unknown : Memory) (radix num : ℕ) where
  -- `strlen` and the copy, on the buffer that `itoa` leaves.
  number_text-out :
      (out : Memory) (len : ℕ)
      → itoa fuel num unknown radix ≡ some out
      → len < fuel
      → out (0 + len) ≡ 0
      → ((j : ℕ) → j < len → out (0 + j) ≢ 0)
      → number_text fuel unknown radix num ≡ some (chars out 0 len)
  unfolding number_text
  number_text-out out len e f ended digits = rw (e, strlen_lem fuel out 0 len f ended digits) refl

  positive_text :
      (r : IsPrintfRadix radix)
      → num < 2 ^ 32
      → 2 ^ 32 < fuel
      → is_negative radix num ≡ false
      → Writes radix num 0 unknown (itoa fuel num unknown radix)
      → IsNumberText radix num (number_text fuel unknown radix num)
  positive_text r h f sign w =
      let t = w.text in
      let short = IsText-length radix num 0 11 unknown w.out t (few_digits radix num r h).0 in
      record {
        digits = chars w.out 0 t.n;
        returned = rw sign (
            number_text-out w.out t.n w.returns (omega (arith, short)) t.ended
              (λ j lt. t.digits j lt));
        value = rw sign (value-chars radix w.out 0 t.n ∙ t.value);
        short = rw sign (omega (arith, short, length-chars w.out 0 t.n));
      }

  zero_text : num ≡ 0 → 2 ^ 32 < fuel → IsNumberText radix num (number_text fuel unknown radix num)
  zero_text none f =
      let out = store (store unknown 0 b'0') 1 0 in
      let sign : is_negative radix num ≡ false = ground arith in
      let written : itoa fuel num unknown radix ≡ some out =
        rw none (itoa-zero_eq fuel unknown radix) in
      record {
        digits = chars out 0 1;
        returned =
            rw sign (number_text-out out 1 written (omega arith) refl (λ j lt. ground arith));
        value = rw (sign, none) (value-zero radix unknown);
        short = rw sign (omega (arith, length-chars out 0 1));
      }

  module _ (out : Memory) (t : IsText 10 (2 ^ 32 - num) 1 (store unknown 0 b'-') out) where
    minus : out 0 ≡ b'-'
    minus = t.others 0 (inl (omega arith))

    ended : out (0 + suc t.n) ≡ 0
    ended = ap out (omega arith) ∙ t.ended

    nonzero : (j : ℕ) → j < suc t.n → out (0 + j) ≢ 0
    nonzero zero lt e = absurd (omega (arith, minus))
    nonzero (suc j) lt e = t.digits j (omega arith) (ap out (omega arith) ∙ e)

  negative_text :
      radix ≡ 10
      → 2 ^ 31 ≤ num
      → num < 2 ^ 32
      → 2 ^ 32 < fuel
      → Writes 10 (2 ^ 32 - num) 1 (store unknown 0 b'-') (itoa fuel num unknown radix)
      → IsNumberText radix num (number_text fuel unknown radix num)
  negative_text ten top h f w =
      let t = w.text in
      let sign : is_negative radix num ≡ true = ground arith in
      let short =
        IsText-length 10 (2 ^ 32 - num) 1 10 (store unknown 0 b'-') w.out t
          ((few_digits 10 (2 ^ 32 - num) (inr (inl refl)) (omega arith)).1 refl) in
      record {
        digits = chars w.out 1 t.n;
        returned = rw sign (
            number_text-out w.out (suc t.n) w.returns (omega (arith, short)) (ended w.out t)
              (nonzero w.out t)
            ∙ ap (λ l. some l) (chars-suc w.out t.n)
            ∙ ap (λ (c : ℕ). some (c ∷ chars w.out 1 t.n)) (minus w.out t));
        value = rw (sign, ten) (value-chars 10 w.out 1 t.n ∙ t.value);
        short = rw sign (omega (arith, short, length-chars w.out 1 t.n));
      }

  pub number_text-IsNumberText :
      IsPrintfRadix radix
      → num < 2 ^ 32
      → 2 ^ 32 < fuel
      → IsNumberText radix num (number_text fuel unknown radix num)
  number_text-IsNumberText r h f = elim (ℕ_discrete num 0) [
    | yes none ↦ zero_text none f
    | no real ↦ elim (itoa_sign radix num) [
      | inl plain ↦ positive_text r h f (ground arith) (
          itoa-Writes fuel num unknown radix (omega arith) (omega arith) (omega arith) plain
            (omega arith))
      | inr (ten, top) ↦
          negative_text ten top h f (rw ten (itoa-negative fuel num unknown top h (omega arith)))
    ]
  ]
