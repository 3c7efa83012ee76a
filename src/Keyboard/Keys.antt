-- ===== src/Keyboard/Keys.antt =====
-- The characters that lumos/arch/i386/keyboard.c prints.
use native.Mathlib.Decide.{dec_lt}
use osd.Base.{ℕ, ◌-◌, ◌<◌, ◌≤◌, bit_and, all_below, all_below_lem, List, get_or}
use osd.Base.{Option, none, some, Bool, true, false, not, ltb, leb, ◌==◌, ◌&&◌, ◌||◌, if◌then◌else◌}
use osd.Base.{Bool-cases, inl, inr, ◌≡◌, ◌≢◌, arith, refl}
use osd.Keyboard.{Keyboard, kbdus, kbdus_shift, entry, key_char, keyboard_handler, shift, caps_lock}

-- A key release has bit 7 set.
release_table : all_below 128 (λ c. bit_and c 0x80 == 0) ≡ true
unfolding all_below
release_table = refl

press_table : all_below 256 (λ c. ltb c 128 || not (bit_and c 0x80 == 0)) ≡ true
unfolding all_below
press_table = refl

entry-past :
    (past past' : ℕ → ℕ) (table : List ℕ) (i : ℕ)
    → i < 128
    → entry past table i ≡ entry past' table i
unfolding entry
entry-past past past' table i h = let low : ltb i 128 ≡ true = ground arith in rw low

release : (code : ℕ) → code < 256 → 128 ≤ code → bit_and code 0x80 == 0 ≡ false
release code h hi = ground (arith, all_below_lem 256 _ code h press_table)

-- A code of 128 or more reads past the end of the table, but what it finds there is never used.
pub key_char-past :
    (past past' : ℕ → ℕ) (shifted caps : Bool) (code : ℕ)
    → code < 256
    → key_char past shifted caps code ≡ key_char past' shifted caps code
unfolding key_char
key_char-past past past' shifted caps code h = elim (Bool-cases (ltb code 128)) [
  | inl low ↦
      let a = entry-past past past' kbdus code (ground arith) in
      let b = entry-past past past' kbdus_shift code (ground arith) in rw (a, b)
  | inr high ↦ rw (release code h (ground arith))
]

-- For every byte from the keyboard, what a read past the end of a table finds has no effect on the
-- driver.
pub keyboard_handler-past :
    (past past' : ℕ → ℕ) (k : Keyboard) (code : ℕ)
    → code < 256
    → keyboard_handler past k code ≡ keyboard_handler past' k code
unfolding keyboard_handler
keyboard_handler-past past past' k code h = rw (key_char-past past past' _ _ code h)

-- The value of one table entry where none is read past the end.
abbrev nothing : ℕ → ℕ
nothing i = 0

is_some_and : (ℕ → Bool) → Option ℕ → Bool
is_some_and p none = true
is_some_and p (some c) = p c

no_ampersand_table :
    (all_below 128 (λ c. is_some_and (λ x. not (x == b'&')) (key_char nothing true true c)) ≡ true)
    × (all_below 128 (λ c. is_some_and (λ x. not (x == b'&')) (key_char nothing true false c))
        ≡ true)
    × (all_below 128 (λ c. is_some_and (λ x. not (x == b'&')) (key_char nothing false true c))
        ≡ true)
    × (all_below 128 (λ c. is_some_and (λ x. not (x == b'&')) (key_char nothing false false c))
        ≡ true)
unfolding all_below is_some_and key_char entry kbdus kbdus_shift
no_ampersand_table = (refl, refl, refl, refl)

holds_without_ampersand :
    (shifted caps : Bool) (code : ℕ)
    → code < 128
    → is_some_and (λ x. not (x == b'&')) (key_char nothing shifted caps code) ≡ true
holds_without_ampersand true true code h = all_below_lem 128 _ code h no_ampersand_table.0
holds_without_ampersand true false code h = all_below_lem 128 _ code h no_ampersand_table.1
holds_without_ampersand false true code h = all_below_lem 128 _ code h no_ampersand_table.2
holds_without_ampersand false false code h = all_below_lem 128 _ code h no_ampersand_table.3

pub key_char-release :
    (past : ℕ → ℕ) (shifted caps : Bool) (code : ℕ)
    → code < 256
    → 128 ≤ code
    → key_char past shifted caps code ≡ none
unfolding key_char
key_char-release past shifted caps code h hi = rw (release code h hi)

key_char-ne-ampersand :
    (past : ℕ → ℕ) (shifted caps : Bool) (code : ℕ)
    → code < 256
    → key_char past shifted caps code ≢ some b'&'
unfolding is_some_and
key_char-ne-ampersand past shifted caps code h e = elim (dec_lt code 128) [
  | yes low ↦
      let known = key_char-past past nothing shifted caps code h in
      ground (arith, holds_without_ampersand shifted caps code low)
  | no high ↦ ground (arith, key_char-release past shifted caps code h (omega arith))
]

-- No key prints an ampersand, whatever modifiers are held: `kbdus_shift` has `%` twice where the
-- 7 key should have it.
pub keyboard_handler-ne-ampersand :
    (past : ℕ → ℕ) (k : Keyboard) (code : ℕ)
    → code < 256
    → (keyboard_handler past k code).1 ≢ some b'&'
unfolding keyboard_handler
keyboard_handler-ne-ampersand past k code h = key_char-ne-ampersand past _ _ code h

-- The letter on a key, if there is one.
unfoldable pub letter_at : ℕ → Option ℕ
unfolding kbdus
letter_at code = let c = get_or kbdus code 0 in if leb b'a' c && leb c b'z' then some c else none

abbrev pub upper_case : Bool → Bool → Bool
upper_case shifted caps = if shifted then not caps else caps

is_char : Option ℕ → ℕ → Bool
is_char none x = false
is_char (some c) x = c == x

-- Whether the key prints its letter, if it has one, in the right case.
right_case : Bool → Bool → ℕ → Option ℕ → Bool
right_case shifted caps code none = true
right_case shifted caps code (some c) =
    is_char (key_char nothing shifted caps code) (if upper_case shifted caps then c - 32 else c)

case_table :
    (all_below 128 (λ c. right_case true true c (letter_at c)) ≡ true)
    × (all_below 128 (λ c. right_case true false c (letter_at c)) ≡ true)
    × (all_below 128 (λ c. right_case false true c (letter_at c)) ≡ true)
    × (all_below 128 (λ c. right_case false false c (letter_at c)) ≡ true)
unfolding all_below right_case is_char letter_at key_char entry kbdus kbdus_shift
case_table = (refl, refl, refl, refl)

right_case_lem :
    (shifted caps : Bool) (code : ℕ)
    → code < 128
    → right_case shifted caps code (letter_at code) ≡ true
right_case_lem true true code h = all_below_lem 128 _ code h case_table.0
right_case_lem true false code h = all_below_lem 128 _ code h case_table.1
right_case_lem false true code h = all_below_lem 128 _ code h case_table.2
right_case_lem false false code h = all_below_lem 128 _ code h case_table.3

key_char-letter :
    (past : ℕ → ℕ) (shifted caps : Bool) (code c : ℕ)
    → code < 128
    → letter_at code ≡ some c
    → key_char past shifted caps code ≡ some (if upper_case shifted caps then c - 32 else c)
unfolding right_case is_char
key_char-letter past shifted caps code c h e =
    let known = key_char-past past nothing shifted caps code (omega arith) in
    let right = rw e at (right_case_lem shifted caps code h) in ground (arith, known, right)

-- The press of a letter key, a code below 128, prints its letter, in upper case exactly when one of
-- shift and caps lock is on.
pub keyboard_handler-letter :
    (past : ℕ → ℕ) (k : Keyboard) (code c : ℕ)
    → code < 128
    → letter_at code ≡ some c
    → (keyboard_handler past k code).1
      ≡ some (
          if upper_case (not (bit_and k.status shift == 0)) (not (bit_and k.status caps_lock == 0))
          then c - 32
          else c)
unfolding keyboard_handler
keyboard_handler-letter past k code c h e = key_char-letter past _ _ code c h e

-- The keys with an effect on the status print nothing.
abbrev pub is_modifier : ℕ → Bool
is_modifier code =
    code == 29 || code == 42 || code == 54 || code == 56 || code == 58 || code == 69 || code == 70

is_none : Option ℕ → Bool
is_none none = true
is_none (some c) = false

modifier_table :
    (all_below 128 (λ c. not (is_modifier c) || is_none (key_char nothing true true c)) ≡ true)
    × (all_below 128 (λ c. not (is_modifier c) || is_none (key_char nothing true false c)) ≡ true)
    × (all_below 128 (λ c. not (is_modifier c) || is_none (key_char nothing false true c)) ≡ true)
    × (all_below 128 (λ c. not (is_modifier c) || is_none (key_char nothing false false c)) ≡ true)
unfolding all_below is_none key_char entry kbdus kbdus_shift
modifier_table = (refl, refl, refl, refl)

modifier_lem :
    (shifted caps : Bool) (code : ℕ)
    → code < 128
    → not (is_modifier code) || is_none (key_char nothing shifted caps code) ≡ true
modifier_lem true true code h = all_below_lem 128 _ code h modifier_table.0
modifier_lem true false code h = all_below_lem 128 _ code h modifier_table.1
modifier_lem false true code h = all_below_lem 128 _ code h modifier_table.2
modifier_lem false false code h = all_below_lem 128 _ code h modifier_table.3

pub key_char-modifier :
    (past : ℕ → ℕ) (shifted caps : Bool) (code : ℕ)
    → code < 256
    → code < 128
    → is_modifier code ≡ true
    → key_char past shifted caps code ≡ none
unfolding is_none
key_char-modifier past shifted caps code h low m =
    let known = key_char-past past nothing shifted caps code h in
    ground (arith, modifier_lem shifted caps code low)
