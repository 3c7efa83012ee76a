-- ===== src/Keyboard/Examples.antt =====
-- Runs and instances of the keyboard driver's theorems.
use osd.Base.{ℕ, ◌≡◌, ◌≢◌, refl, arith, some}
use osd.Base.Bits.{bit}
use osd.Keyboard.{Keyboard, keyboard_handler}
use osd.Keyboard.Keys.{
  keyboard_handler-past, keyboard_handler-ne-ampersand, keyboard_handler-letter,
}
use osd.Keyboard.Keys.{letter_at}
use osd.Keyboard.Status.{after, effect_of, keyboard_handler-status}

abbrev idle : Keyboard
idle = record { scancode = 0; last_scancode = 0; status = 0 }

-- Caps lock is on.
abbrev caps : Keyboard
caps = record { scancode = 0x3A; last_scancode = 0x3A; status = 4 }

abbrev zeros : ℕ → ℕ
zeros i = 0

abbrev noise : ℕ → ℕ
noise i = 65

keyboard_handler-past_example : keyboard_handler zeros idle 0x9E ≡ keyboard_handler noise idle 0x9E
keyboard_handler-past_example = keyboard_handler-past zeros noise idle 0x9E (omega arith)

ampersand_run : (keyboard_handler zeros idle 8).1 ≢ some b'&'
ampersand_run = keyboard_handler-ne-ampersand zeros idle 8 (omega arith)

a_key : letter_at 0x1E ≡ some b'a'
unfolding letter_at
a_key = refl

keyboard_handler-letter_example : (keyboard_handler zeros caps 0x1E).1 ≡ some b'A'
keyboard_handler-letter_example = keyboard_handler-letter zeros caps 0x1E b'a' (omega arith) a_key

keyboard_handler-status_example :
    bit 1 (keyboard_handler zeros caps 0x2A).0.status ≡ after (effect_of 0x2A) 1 (bit 1 4)
keyboard_handler-status_example =
    keyboard_handler-status zeros caps 0x2A 1 (omega arith) (omega arith) (omega arith)
