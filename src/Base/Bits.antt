-- ===== src/Base/Bits.antt =====
-- Single binary digits of a number, and how the bitwise operations act on them.
use Prim.Native.Nat.{ℕ, zero, suc, ◌+◌, ◌-◌, ◌*◌, ◌/◌, ◌%◌, ◌^◌, ◌≤◌, ◌<◌, min, max}
use Prim.Native.Nat.add
use Prim.Native.Nat.{bit_and, bit_or, bit_xor, digits, bitwise, differ}
use Prim.Native.Nat.{bit_and-bitwise, bit_or-bitwise, bit_xor-bitwise}
use mathlib.Core.Path.{◌≡◌, refl, sym, ◌∙◌, ap}
use native.Mathlib.Nat.{
  add_comm, mul_comm, le_refl, pow-suc, one-le-pow, add-zero, add-suc, div-div-eq-div-mul,
  mod-add-div',
}
use native.Mathlib.Decide.{dec_lt}
use native.Mathlib.Omega.{arith}
use osd.Base.Tests.{◌==◌, ltb, if◌then◌else◌}

-- The libraries define the bitwise operations by `digits`, which takes fuel. More than enough fuel
-- changes nothing.
module _ (one_sided : ℕ → ℕ) (f : ℕ → ℕ → ℕ) where
  digits-fuel_suc : (n a b : ℕ) → a ≤ n → digits one_sided f (suc n) a b ≡ digits one_sided f n a b
  digits-fuel_suc zero zero b fits = refl
  digits-fuel_suc (suc n) zero b fits = refl
  digits-fuel_suc zero (suc a) b fits = absurd (omega arith)
  digits-fuel_suc (suc n) (suc a) b fits = rw (digits-fuel_suc n (suc a / 2) (b / 2) (omega arith))

  digits-fuel_add :
      (extra n a b : ℕ) → a ≤ n → digits one_sided f (extra + n) a b ≡ digits one_sided f n a b
  digits-fuel_add zero n a b fits = rw (add.zero n)
  digits-fuel_add (suc extra) n a b fits =
      rw (add.suc extra n)
        (digits-fuel_suc (extra + n) a b (omega arith) ∙ digits-fuel_add extra n a b fits)

  bitwise-low_digit :
      (a b : ℕ)
      → bitwise one_sided f (suc a) b
        ≡ f (suc a % 2) (b % 2) + 2 * bitwise one_sided f (suc a / 2) (b / 2)
  bitwise-low_digit a b =
      rw (← exact)
        (rw split (add_comm _ _ ∙ ap (λ (t : ℕ). f (suc a % 2) (b % 2) + t) (mul_comm _ 2)))
    where
      exact :
          digits one_sided f (a - suc a / 2 + suc a / 2) (suc a / 2) (b / 2)
          ≡ digits one_sided f (suc a / 2) (suc a / 2) (b / 2)
      exact = digits-fuel_add (a - suc a / 2) (suc a / 2) (suc a / 2) (b / 2) (le_refl _)

      split : a - suc a / 2 + suc a / 2 ≡ a
      split = omega arith

pub bit_or_step : (x y : ℕ) → bit_or x y ≡ max (x % 2) (y % 2) + 2 * bit_or (x / 2) (y / 2)
bit_or_step zero y = omega (arith, bit_or-bitwise 0 y, bit_or-bitwise 0 (y / 2))
bit_or_step (suc n) y = simp bit_or-bitwise (bitwise-low_digit (λ t. t) max n y)

pub bit_and_step : (x y : ℕ) → bit_and x y ≡ min (x % 2) (y % 2) + 2 * bit_and (x / 2) (y / 2)
bit_and_step zero y = omega (arith, bit_and-bitwise 0 y, bit_and-bitwise 0 (y / 2))
bit_and_step (suc n) y = simp bit_and-bitwise (bitwise-low_digit (λ t. 0) min n y)

-- The binary digit of `w` at place `k`.
unfoldable pub bit : ℕ → ℕ → ℕ
bit zero w = w % 2
bit (suc k) w = bit k (w / 2)

pub bit-lt : (k w : ℕ) → bit k w < 2
unfolding bit
bit-lt zero w = omega arith
bit-lt (suc k) w = bit-lt k (w / 2)

pub bit-or : (k a b : ℕ) → bit k (bit_or a b) ≡ max (bit k a) (bit k b)
unfolding bit
bit-or zero a b = omega (arith, bit_or_step a b)
bit-or (suc k) a b = ap (bit k) (omega (arith, bit_or_step a b)) ∙ bit-or k (a / 2) (b / 2)

pub bit-and : (k a b : ℕ) → bit k (bit_and a b) ≡ min (bit k a) (bit k b)
unfolding bit
bit-and zero a b = omega (arith, bit_and_step a b)
bit-and (suc k) a b = ap (bit k) (omega (arith, bit_and_step a b)) ∙ bit-and k (a / 2) (b / 2)

half-pow_suc : (k : ℕ) → 2 ^ suc k / 2 ≡ 2 ^ k
half-pow_suc k = omega (arith, pow-suc 2 k)

pub bit-zero : (k : ℕ) → bit k 0 ≡ 0
unfolding bit
bit-zero zero = refl
bit-zero (suc k) = bit-zero k

pub bit-pow : (k j : ℕ) → bit k (2 ^ j) ≡ (if k == j then 1 else 0)
unfolding bit
bit-pow zero zero = refl
bit-pow zero (suc j) = ground (arith, pow-suc 2 j)
bit-pow (suc k) zero = bit-zero k ∙ ground arith
bit-pow (suc k) (suc j) = ap (bit k) (half-pow_suc j) ∙ bit-pow k j ∙ ground arith

-- The low `n` digits of the complement `2 ^ n - 1 - w` are turned over.
pub bit-complement : (n k w : ℕ) → k < n → w < 2 ^ n → bit k (2 ^ n - 1 - w) ≡ 1 - bit k w
unfolding bit
bit-complement zero k w h p = absurd (omega arith)
bit-complement (suc n) zero w h p = omega (arith, pow-suc 2 n)
bit-complement (suc n) (suc k) w h p =
    ap (bit k) (omega (arith, pow-suc 2 n))
    ∙ bit-complement n k (w / 2) (omega arith) (omega (arith, pow-suc 2 n))

bit_and-zero_below : (n a : ℕ) → a ≤ n → bit_and a 0 ≡ 0
bit_and-zero_below n zero h = refl
bit_and-zero_below zero (suc a) h = absurd (omega arith)
bit_and-zero_below (suc n) (suc a) h =
    omega (arith, bit_and_step (suc a) 0, bit_and-zero_below n (suc a / 2) (omega arith))

bit_and-zero : (a : ℕ) → bit_and a 0 ≡ 0
bit_and-zero a = bit_and-zero_below a a (le_refl a)

-- A mask of one digit selects it.
pub bit_and-pow : (k w : ℕ) → bit_and w (2 ^ k) ≡ bit k w * 2 ^ k
unfolding bit
bit_and-pow zero w = omega (arith, bit_and_step w 1, bit_and-zero (w / 2))
bit_and-pow (suc k) w = ground (
  arith,
  pow-suc 2 k,
  bit_and_step w (2 ^ suc k),
  ap (bit_and (w / 2)) (half-pow_suc k),
  bit_and-pow k (w / 2),
  ap (λ (t : ℕ). bit k (w / 2) * t) (pow-suc 2 k),
)

le-zero : (a : ℕ) → a ≤ 0 → a ≡ 0
le-zero a h = omega arith

pub bit_or-lt : (n a b : ℕ) → a < 2 ^ n → b < 2 ^ n → bit_or a b < 2 ^ n
bit_or-lt zero a b p q = rw (le-zero a (omega arith), le-zero b (omega arith)) (omega arith)
bit_or-lt (suc n) a b p q = omega (arith, pow-suc 2 n, bit_or_step a b, bit_or-lt n (a / 2) (b / 2))

bit_or-zero : (b : ℕ) → bit_or 0 b ≡ b
bit_or-zero b = omega (arith, bit_or-bitwise 0 b)

-- Digits that do not meet.
pub bit_or-above : (n a b : ℕ) → a < 2 ^ n → bit_or a (b * 2 ^ n) ≡ a + b * 2 ^ n
bit_or-above zero a b h = rw (le-zero a (omega arith)) (omega (arith, bit_or-zero (b * 2 ^ 0)))
bit_or-above (suc n) a b h =
    let whole : b * 2 ^ suc n ≡ 2 * (b * 2 ^ n) =
      omega (arith, ap (λ (t : ℕ). b * t) (pow-suc 2 n)) in
    let half : b * 2 ^ suc n / 2 ≡ b * 2 ^ n = omega (arith, whole) in
    let rest = bit_or-above n (a / 2) b (omega (arith, pow-suc 2 n)) in
    bit_or_step a (b * 2 ^ suc n) ∙ rw (half, rest) (omega (arith, whole))

pub bit_and-le : (n a b : ℕ) → a ≤ n → bit_and a b ≤ a
bit_and-le n zero b h = omega (arith, bit_and-bitwise 0 b)
bit_and-le zero (suc a) b h = absurd (omega arith)
bit_and-le (suc n) (suc a) b h =
    omega (arith, bit_and_step (suc a) b, bit_and-le n (suc a / 2) (b / 2))

-- A number below `2 ^ n` is determined by its low `n` digits.
pub bit_ext : (n a b : ℕ) → a < 2 ^ n → b < 2 ^ n → ((k : ℕ) → k < n → bit k a ≡ bit k b) → a ≡ b
unfolding bit
bit_ext zero a b p q h = omega arith
bit_ext (suc n) a b p q h = omega (
  arith,
  pow-suc 2 n,
  h 0 (omega arith),
  bit_ext n (a / 2) (b / 2) (omega (arith, pow-suc 2 n)) (omega (arith, pow-suc 2 n))
      (λ k l. h (suc k) (omega arith)),
)

pub bit-ones : (n k : ℕ) → bit k (2 ^ n - 1) ≡ (if ltb k n then 1 else 0)
unfolding bit
bit-ones zero k = bit-zero k ∙ ground arith
bit-ones (suc n) zero = ground (arith, pow-suc 2 n, one-le-pow n 2)
bit-ones (suc n) (suc k) = ap (bit k) (omega (arith, pow-suc 2 n)) ∙ bit-ones n k ∙ ground arith

div-one : (w : ℕ) → w / 1 ≡ w
div-one w = omega arith

pow-suc_left : (s : ℕ) → 2 ^ suc s ≡ 2 * 2 ^ s
pow-suc_left s = omega (arith, pow-suc 2 s)

pub bit-shr : (s k w : ℕ) → bit k (w / 2 ^ s) ≡ bit (k + s) w
unfolding bit
bit-shr zero k w = rw (add-zero k) (ap (bit k) (div-one w))
bit-shr (suc s) k w = rw (add-suc k s, split) (bit-shr s k (w / 2))
  where
    split : w / 2 ^ suc s ≡ w / 2 / 2 ^ s
    split = ap (λ (t : ℕ). w / t) (pow-suc_left s) ∙ sym (div-div-eq-div-mul w 2 (2 ^ s))

differ-digits : (a b : ℕ) → a < 2 → b < 2 → differ a b ≡ (a + b) % 2
differ-digits zero b p q = omega arith
differ-digits (suc zero) zero p q = refl
differ-digits (suc zero) (suc zero) p q = refl
differ-digits (suc zero) (suc (suc b)) p q = absurd (omega arith)
differ-digits (suc (suc a)) b p q = absurd (omega arith)

bit_xor_step : (a b : ℕ) → bit_xor a b ≡ (a % 2 + b % 2) % 2 + 2 * bit_xor (a / 2) (b / 2)
bit_xor_step zero b = simp bit_xor-bitwise (omega arith)
bit_xor_step (suc a) b =
    rw (← differ-digits (suc a % 2) (b % 2) (omega arith) (omega arith))
      (simp bit_xor-bitwise (bitwise-low_digit (λ y. y) differ a b))

pub bit-xor : (k a b : ℕ) → bit k (bit_xor a b) ≡ (bit k a + bit k b) % 2
unfolding bit
bit-xor zero a b = omega (arith, bit_xor_step a b)
bit-xor (suc k) a b = ap (bit k) (omega (arith, bit_xor_step a b)) ∙ bit-xor k (a / 2) (b / 2)

pub bit_xor-lt : (n a b : ℕ) → a < 2 ^ n → b < 2 ^ n → bit_xor a b < 2 ^ n
bit_xor-lt zero a b p q = rw (le-zero a (omega arith), le-zero b (omega arith)) (omega arith)
bit_xor-lt (suc n) a b p q =
    omega (arith, pow-suc 2 n, bit_xor_step a b, bit_xor-lt n (a / 2) (b / 2))

half-ones : (n : ℕ) → (2 ^ suc n - 1) / 2 ≡ 2 ^ n - 1
half-ones n = omega (arith, pow-suc 2 n, one-le-pow n 2 (omega arith))

mod-pow_suc : (n a : ℕ) → a % 2 ^ suc n ≡ a / 2 % 2 ^ n * 2 + a % 2
mod-pow_suc n a =
    let halves : a / (2 * 2 ^ n) ≡ a / 2 / 2 ^ n = sym (div-div-eq-div-mul a 2 (2 ^ n)) in
    let whole = rw halves at (mod-add-div' a (2 * 2 ^ n)) in
    rw (pow-suc_left n) (omega (arith, whole, mod-add-div' (a / 2) (2 ^ n)))

-- A mask of `n` low bits is the remainder by `2 ^ n`.
pub bit_and-ones : (n a : ℕ) → bit_and a (2 ^ n - 1) ≡ a % 2 ^ n
bit_and-ones zero a = omega (arith, bit_and-zero a)
bit_and-ones (suc n) a = omega (
  arith,
  pow-suc 2 n,
  one-le-pow n 2 (omega arith),
  bit_and_step a (2 ^ suc n - 1),
  ap (bit_and (a / 2)) (half-ones n),
  bit_and-ones n (a / 2),
  mod-pow_suc n a,
)

-- The leading digit, and the zeros above it.
pub bit-above : (k x : ℕ) → x < 2 ^ k → bit k x ≡ 0
unfolding bit
bit-above zero x h = omega arith
bit-above (suc k) x h = bit-above k (x / 2) (omega (arith, pow-suc 2 k))

pub bit-top : (k x : ℕ) → 2 ^ k ≤ x → x < 2 ^ suc k → bit k x ≡ 1
unfolding bit
bit-top zero x p q = omega arith
bit-top (suc k) x p q =
    bit-top k (x / 2) (omega (arith, pow-suc 2 k)) (omega (arith, pow-suc 2 k, pow-suc 2 (suc k)))

pub leading : (n x : ℕ) → 1 ≤ x → x < 2 ^ n → (k : ℕ) × (k < n) × (2 ^ k ≤ x) × (x < 2 ^ suc k)
leading zero x p q = absurd (omega arith)
leading (suc n) x p q = elim (dec_lt x (2 ^ n)) [
  | yes low ↦ let (k, lt, a, b) = leading n x p low in (k, omega arith, a, b)
  | no high ↦ (n, omega arith, omega arith, q)
]
