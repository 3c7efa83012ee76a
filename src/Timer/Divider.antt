-- ===== src/Timer/Divider.antt =====
-- The divider that lumos/arch/i386/timer.c sends to the timer chip.
use native.Mathlib.Nat.{mod-add-div', mod-lt, mul-le-mul_left}
use osd.Base.{ℕ, ◌+◌, ◌*◌, ◌/◌, ◌%◌, ◌^◌, ◌≤◌, ◌<◌, ◌≡◌, arith, List, [], ◌∷◌, ◌==◌, if◌then◌else◌}
use osd.Base.Bits.{bit_and-ones}
use osd.Timer.{divider, init_timer, pit_channel0_data}

-- The bytes sent to a port, in order.
pub sent_to : ℕ → List (ℕ × ℕ) → List ℕ
sent_to port [] = []
sent_to port ((p, b) ∷ l) = let rest = sent_to port l in if p == port then b ∷ rest else rest

-- The value of two bytes, the low one first.
abbrev pub word_of : List ℕ → ℕ
word_of [] = 0
word_of (b ∷ bs) = b + 256 * word_of bs

-- The two bytes sent to the data port make up the divider, low byte first.
pub word_of-init_timer : (f : ℕ) → word_of (sent_to pit_channel0_data (init_timer f)) ≡ divider f
unfolding sent_to init_timer
word_of-init_timer f =
    let d = 1193182 / f % 2 ^ 16 in
    omega (arith, bit_and-ones 8 d, bit_and-ones 8 (d / 2 ^ 8 % 2 ^ 8))

-- From 19 Hz up to the frequency of the chip, the divider is not cut to its 16 bits, and the timer
-- runs at the frequency asked for or above, by less than one period in each second.
pub divider_lem :
    (f : ℕ) → 19 ≤ f → f ≤ 1193182 → (divider f * f ≤ 1193182) × (1193182 < divider f * f + f)
unfolding divider
divider_lem f lo hi =
    let q = 1193182 / f in
    let whole = mod-add-div' 1193182 f in
    let rest = mod-lt 1193182 {m = f} (omega arith) in
    let small : q * 19 ≤ q * f = mul-le-mul_left q lo in
    let exact : q % 2 ^ 16 ≡ q = omega (arith, whole, small) in
    rw exact (omega (arith, whole), omega (arith, whole, rest))
