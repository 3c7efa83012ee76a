-- ===== src/Keyboard/Status.antt =====
-- The modifier keys of lumos/arch/i386/keyboard.c, one status bit at a time.
use native.Mathlib.Nat.{le_refl}
use osd.Base.{ℕ, ◌-◌, ◌^◌, ◌<◌, u8, bit_and, bit_or, bit_xor, not32, some}
use osd.Base.{Bool, true, false, not, ◌==◌, if◌then◌else◌, ◌≡◌, arith, refl, inl, inr}
use osd.Base.{Option-cases}
use osd.Base.Bits.{bit, bit-lt, bit-or, bit-and, bit-xor, bit-pow, bit-complement, bit_and-le}
use osd.Keyboard.{
  Keyboard, switch_status, next_status, keyboard_handler, key_char, shift, caps_lock,
}
use osd.Keyboard.Keys.{key_char-modifier, key_char-release}

-- What a scancode does to the status bits.
pub data Effect : Type 0 where
  sets clears toggles : ℕ → Effect
  keeps : Effect

-- The modifier keys of a PC keyboard with the bits of the comment in keyboard.c: control 0, shift 1,
-- caps lock 2, num lock 3, scroll lock 4, alt 5.
pub effect_of : ℕ → Effect
effect_of code =
    if code == 29
    then sets 0
    else if code == 157
    then clears 0
    else if code == 42
    then sets 1
    else if code == 170
    then clears 1
    else if code == 54
    then sets 1
    else if code == 182
    then clears 1
    else if code == 56
    then sets 5
    else if code == 184
    then clears 5
    else if code == 58
    then toggles 2
    else if code == 69
    then toggles 3
    else if code == 70
    then toggles 4
    else keeps

-- The status bit at place `k` after an effect on a bit of value `old`.
pub after : Effect → ℕ → ℕ → ℕ
after (sets j) k old = if k == j then 1 else old
after (clears j) k old = if k == j then 0 else old
after (toggles j) k old = if k == j then 1 - old else old
after keeps k old = old

bit-set : (k j s : ℕ) → bit k (bit_or s (2 ^ j)) ≡ after (sets j) k (bit k s)
unfolding after
bit-set k j s = ground (arith, bit-or k s (2 ^ j), bit-pow k j, bit-lt k s)

bit-toggle : (k j s : ℕ) → bit k (bit_xor s (2 ^ j)) ≡ after (toggles j) k (bit k s)
unfolding after
bit-toggle k j s = ground (arith, bit-xor k s (2 ^ j), bit-pow k j, bit-lt k s)

bit-clear :
    (k j s : ℕ)
    → s < 256
    → k < 8
    → 2 ^ j < 2 ^ 32
    → bit k (u8 (bit_and s (not32 (2 ^ j)))) ≡ after (clears j) k (bit k s)
unfolding after
bit-clear k j s h kh jh =
    let e : u8 (bit_and s (not32 (2 ^ j))) ≡ bit_and s (not32 (2 ^ j)) =
      omega (arith, bit_and-le s s (not32 (2 ^ j)) (le_refl s)) in
    rw e (
      ground (
        arith,
        bit-and k s (not32 (2 ^ j)),
        bit-complement 32 k (2 ^ j) (omega arith) jh,
        bit-pow k j,
        bit-lt k s,
      ))

after-keeps : (k old : ℕ) → old ≡ after keeps k old
unfolding after
after-keeps k old = refl

bit-if :
    (k old : ℕ) (b : Bool) (x y : ℕ) (e f : Effect)
    → bit k x ≡ after e k old
    → bit k y ≡ after f k old
    → bit k (if b then x else y) ≡ after (if b then e else f) k old
bit-if k old true x y e f p q = p
bit-if k old false x y e f p q = q

switch_status-bit :
    (code s k : ℕ)
    → s < 256
    → k < 8
    → bit k (switch_status code s) ≡ after (effect_of code) k (bit k s)
unfolding switch_status effect_of
switch_status-bit code s k h kh =
    let case = bit-if k (bit k s) in
    case (code == 29) _ _ _ _ (bit-set k 0 s) (
      case (code == 157) _ _ _ _ (bit-clear k 0 s h kh (omega arith)) (
        case (code == 42) _ _ _ _ (bit-set k 1 s) (
          case (code == 170) _ _ _ _ (bit-clear k 1 s h kh (omega arith)) (
            case (code == 54) _ _ _ _ (bit-set k 1 s) (
              case (code == 182) _ _ _ _ (bit-clear k 1 s h kh (omega arith)) (
                case (code == 56) _ _ _ _ (bit-set k 5 s) (
                  case (code == 184) _ _ _ _ (bit-clear k 5 s h kh (omega arith)) (
                    case (code == 58) _ _ _ _ (bit-toggle k 2 s) (
                      case (code == 69) _ _ _ _ (bit-toggle k 3 s) (
                        case (code == 70) _ _ _ _ (bit-toggle k 4 s)
                          (after-keeps k (bit k s))))))))))))

-- Where a character is printed, the key has no effect on the status.
printed-keeps :
    (past : ℕ → ℕ) (shifted caps : Bool) (code c : ℕ)
    → code < 256
    → key_char past shifted caps code ≡ some c
    → effect_of code ≡ keeps
unfolding effect_of
printed-keeps past shifted caps code c h e =
    ground
      (arith, key_char-modifier past shifted caps code h, key_char-release past shifted caps code h)

-- For a byte of status and a byte from the keyboard, each status bit after one interrupt: a
-- modifier key pressed or released sets, clears or toggles its own bit, and every other bit and
-- every other key leaves the status alone.
pub keyboard_handler-status :
    (past : ℕ → ℕ) (key : Keyboard) (code k : ℕ)
    → code < 256
    → key.status < 256
    → k < 8
    → bit k (keyboard_handler past key code).0.status ≡ after (effect_of code) k (bit k key.status)
unfolding keyboard_handler next_status
keyboard_handler-status past key code k h hs hk =
    elim (Option-cases (key_char past shifted caps code)) [
      | inl e ↦ rw (e, next_status) (switch_status-bit code key.status k hs hk)
      | inr (c, e) ↦
          rw (e, next_status, printed-keeps past shifted caps code c h e)
            (after-keeps k (bit k key.status))
    ]
  where
    shifted : Bool
    shifted = not (bit_and key.status shift == 0)

    caps : Bool
    caps = not (bit_and key.status caps_lock == 0)
