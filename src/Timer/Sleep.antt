-- ===== src/Timer/Sleep.antt =====
-- How long `sleep` of lumos/arch/i386/timer.c sleeps.
use osd.Base.{ℕ, suc, ◌+◌, ◌-◌, ◌*◌, ◌/◌, ◌^◌, ◌≤◌, ◌<◌, u32, leb, List, [], ◌∷◌}
use osd.Base.{Option, none, some, Bool, true, false, ◌≡◌, refl, arith, Bool-cases, inl, inr, leb→le}
use native.Mathlib.Nat.{mod-eq_of_lt}
use osd.Timer.{timer_tick, sleep_loop, sleep, target_ticks}

-- The timer interrupts in a list.
pub count_ticks : List Bool → ℕ
count_ticks [] = 0
count_ticks (true ∷ l) = suc (count_ticks l)
count_ticks (false ∷ l) = count_ticks l

-- The loop has returned after exactly the ticks that were missing, and one more; or it still waits,
-- and they have not come.
pub Slept : ℕ → ℕ → List Bool → Option (ℕ × List Bool) → Type 0
Slept target ticks l none = ticks + count_ticks l ≤ target
Slept target ticks l (some (now, later)) =
    (now ≡ target + 1) × (ticks + count_ticks l ≡ target + 1 + count_ticks later)

Slept-shift :
    (target a b : ℕ) (l l' : List Bool) (r : Option (ℕ × List Bool))
    → a + count_ticks l ≡ b + count_ticks l'
    → Slept target a l r
    → Slept target b l' r
unfolding Slept
Slept-shift target a b l l' none e h = omega arith
Slept-shift target a b l l' (some (now, later)) e h = omega arith

Slept-waits : (target ticks : ℕ) → ticks ≤ target → Slept target ticks [] none
unfolding Slept count_ticks
Slept-waits target ticks le = omega arith

timer_tick_lem : (ticks : ℕ) → ticks + 1 < 2 ^ 32 → timer_tick ticks ≡ ticks + 1
unfolding timer_tick
timer_tick_lem ticks h = omega arith

count-true : (t : ℕ) (l : List Bool) → t + 1 + count_ticks l ≡ t + count_ticks (true ∷ l)
unfolding count_ticks
count-true t l = omega arith

count-false : (t : ℕ) (l : List Bool) → t + count_ticks l ≡ t + count_ticks (false ∷ l)
unfolding count_ticks
count-false t l = refl

-- A loop whose test fails returns at once.
Slept-now :
    (target ticks : ℕ) (l : List Bool)
    → ticks ≤ target + 1
    → leb ticks target ≡ false
    → Slept target ticks l (some (ticks, l))
unfolding Slept
Slept-now target ticks l le stop = let over : ticks ≡ target + 1 = ground arith in omega arith

sleep_loop-Slept :
    (target ticks : ℕ) (l : List Bool)
    → target + 1 < 2 ^ 32
    → ticks ≤ target + 1
    → Slept target ticks l (sleep_loop target ticks l)
unfolding sleep_loop
sleep_loop-Slept target ticks [] h le = elim (Bool-cases (leb ticks target)) [
  | inl go ↦ rw go (Slept-waits target ticks (ground arith))
  | inr stop ↦ rw stop (Slept-now target ticks [] le stop)
]
sleep_loop-Slept target ticks (true ∷ l) h le = elim (Bool-cases (leb ticks target)) [
  | inl go ↦
      let below : ticks ≤ target = leb→le ticks target go in
      let next : timer_tick ticks ≡ ticks + 1 = timer_tick_lem ticks (omega arith) in
      rw (go, next)
        (Slept-shift target (ticks + 1) ticks l (true ∷ l) _ (count-true ticks l)
          (sleep_loop-Slept target (ticks + 1) l h (omega arith)))
  | inr stop ↦ rw stop (Slept-now target ticks (true ∷ l) le stop)
]
sleep_loop-Slept target ticks (false ∷ l) h le = elim (Bool-cases (leb ticks target)) [
  | inl go ↦ rw go (
      Slept-shift target ticks ticks l (false ∷ l) _ (count-false ticks l)
        (sleep_loop-Slept target ticks l h le))
  | inr stop ↦ rw stop (Slept-now target ticks (false ∷ l) le stop)
]

-- Without wrap-around the target is the ticks that the milliseconds stand for, after those so far.
pub target_ticks_lem :
    (ticks clocks_per_second ms : ℕ)
    → ms * clocks_per_second < 2 ^ 32
    → ticks + ms * clocks_per_second / 1000 + 1 < 2 ^ 32
    → target_ticks ticks clocks_per_second ms ≡ ticks + ms * clocks_per_second / 1000
unfolding target_ticks
target_ticks_lem ticks clocks_per_second ms small fits =
    let product : u32 (ms * clocks_per_second) ≡ ms * clocks_per_second = mod-eq_of_lt small in
    rw product (mod-eq_of_lt (omega arith))

-- `sleep` returns after the number of timer interrupts that its target asks for, and one more, as
-- long as the target does not wrap; other interrupts do not count.
pub sleep-Slept :
    (clocks_per_second ms ticks : ℕ) (l : List Bool)
    → ms * clocks_per_second < 2 ^ 32
    → ticks + ms * clocks_per_second / 1000 + 1 < 2 ^ 32
    → Slept (ticks + ms * clocks_per_second / 1000) ticks l (sleep clocks_per_second ms ticks l)
unfolding sleep
sleep-Slept clocks_per_second ms ticks l small fits =
    rw (target_ticks_lem ticks clocks_per_second ms small fits)
      (sleep_loop-Slept _ ticks l fits (omega arith))

-- With the greatest target the test always holds, and the loop has not returned after any list of
-- interrupts.
pub sleep_loop-forever :
    (ticks : ℕ) (l : List Bool) → ticks < 2 ^ 32 → sleep_loop (2 ^ 32 - 1) ticks l ≡ none
unfolding sleep_loop timer_tick
sleep_loop-forever ticks [] h = ground arith
sleep_loop-forever ticks (true ∷ l) h =
    ground (arith, sleep_loop-forever (u32 (ticks + 1)) l (omega arith))
sleep_loop-forever ticks (false ∷ l) h = ground (arith, sleep_loop-forever ticks l h)
