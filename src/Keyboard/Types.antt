-- ===== src/Keyboard/Types.antt =====
-- The variables of lumos/arch/i386/keyboard.c are bytes, and stay bytes.
use osd.Base.{
  ℕ, ◌^◌, ◌<◌, bit_and, Bool, true, false, not, ◌==◌, if◌then◌else◌, arith, Option-cases, inl, inr,
}
use osd.Base.Bits.{bit_or-lt, bit_xor-lt}
use osd.Keyboard.{
  Keyboard, ctrl, shift, caps_lock, num_lock, scroll_lock, alt, switch_status, next_status,
  key_char, keyboard_handler,
}

pub record HasBytes (k : Keyboard) : Type 0 where
  pub scancode : k.scancode < 2 ^ 8
  pub last_scancode : k.last_scancode < 2 ^ 8
  pub status : k.status < 2 ^ 8

if-lt : (b : Bool) (x y n : ℕ) → x < n → y < n → (if b then x else y) < n
if-lt true x y n h k = h
if-lt false x y n h k = k

switch_status-lt : (code status : ℕ) → status < 2 ^ 8 → switch_status code status < 2 ^ 8
unfolding switch_status
switch_status-lt code status h =
    let case = λ (n x y : ℕ). if-lt (code == n) x y (2 ^ 8) in
    case 0x1D _ _ (bit_or-lt 8 status ctrl h (omega arith)) (
      case 0x9D _ _ (omega arith) (
        case 0x2A _ _ (bit_or-lt 8 status shift h (omega arith)) (
          case 0xAA _ _ (omega arith) (
            case 0x36 _ _ (bit_or-lt 8 status shift h (omega arith)) (
              case 0xB6 _ _ (omega arith) (
                case 0x38 _ _ (bit_or-lt 8 status alt h (omega arith)) (
                  case 0xB8 _ _ (omega arith) (
                    case 0x3A _ _ (bit_xor-lt 8 status caps_lock h (omega arith)) (
                      case 0x45 _ _ (bit_xor-lt 8 status num_lock h (omega arith))
                        (case 0x46 _ _ (bit_xor-lt 8 status scroll_lock h (omega arith)) h))))))))))

pub keyboard_handler-HasBytes :
    (past : ℕ → ℕ) (k : Keyboard) (code : ℕ)
    → code < 2 ^ 8
    → HasBytes k
    → HasBytes (keyboard_handler past k code).0
unfolding keyboard_handler next_status
keyboard_handler-HasBytes past k code c h = record {
  scancode = c;
  last_scancode = c;
  status = elim (Option-cases (key_char past shifted caps code)) [
    | inl e ↦ rw e (switch_status-lt code k.status h.status)
    | inr (t, e) ↦ rw e h.status
  ];
}
  where
    shifted : Bool
    shifted = not (bit_and k.status shift == 0)

    caps : Bool
    caps = not (bit_and k.status caps_lock == 0)
