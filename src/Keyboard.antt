-- ===== src/Keyboard.antt =====
-- The keyboard driver, lumos/arch/i386/keyboard.c and lumos/include/lumos/keyboard.h.
pub mod Keys
pub mod Status
pub mod Types
pub mod Init
mod Examples
use osd.Base.{
  ℕ, ◌<◌, bit_and, bit_or, bit_xor, u8, not32, List, [], ◌∷◌, get_or, Option, none, some, ◌>>=◌,
}
use osd.Idt.{pic_master_data_port, pic_slave_data_port}
use osd.Isr.{Handlers, register_interrupt_handler}
use osd.Base.{Bool, true, false, not, ltb, leb, ◌==◌, ◌&&◌, ◌||◌, if◌then◌else◌}

-- The status bit masks.
abbrev pub ctrl : ℕ
ctrl = 0x01

abbrev pub shift : ℕ
shift = 0x02

abbrev pub caps_lock : ℕ
caps_lock = 0x04

abbrev pub num_lock : ℕ
num_lock = 0x08

abbrev pub scroll_lock : ℕ
scroll_lock = 0x10

abbrev pub alt : ℕ
alt = 0x20

-- The two tables up to their last character; C fills the rest of the 128 entries with 0.
pub kbdus : List ℕ
kbdus =
    0 ∷ 0 ∷ b'1' ∷ b'2' ∷ b'3' ∷ b'4' ∷ b'5' ∷ b'6' ∷ b'7' ∷ b'8' ∷ b'9' ∷ b'0' ∷ b'-' ∷ b'=' ∷ 8
    ∷ b'\t' ∷ b'q' ∷ b'w' ∷ b'e' ∷ b'r' ∷ b't' ∷ b'y' ∷ b'u' ∷ b'i' ∷ b'o' ∷ b'p' ∷ b'[' ∷ b']'
    ∷ b'\n' ∷ 0 ∷ b'a' ∷ b's' ∷ b'd' ∷ b'f' ∷ b'g' ∷ b'h' ∷ b'j' ∷ b'k' ∷ b'l' ∷ b';' ∷ 39 ∷ b'`'
    ∷ 0 ∷ 92 ∷ b'z' ∷ b'x' ∷ b'c' ∷ b'v' ∷ b'b' ∷ b'n' ∷ b'm' ∷ b',' ∷ b'.' ∷ b'/' ∷ 0 ∷ b'*' ∷ 0
    ∷ b' ' ∷ 0 ∷ 0 ∷ 0 ∷ 0 ∷ 0 ∷ 0 ∷ 0 ∷ 0 ∷ 0 ∷ 0 ∷ 0 ∷ 0 ∷ 0 ∷ 0 ∷ 0 ∷ 0 ∷ b'-' ∷ 0 ∷ 0 ∷ 0 ∷ b'+'
    ∷ []

pub kbdus_shift : List ℕ
kbdus_shift =
    0 ∷ 0 ∷ b'!' ∷ b'@' ∷ b'#' ∷ b'$' ∷ b'%' ∷ b'%' ∷ b'^' ∷ b'*' ∷ b'(' ∷ b')' ∷ b'_' ∷ b'+' ∷ 8
    ∷ b'\t' ∷ b'Q' ∷ b'W' ∷ b'E' ∷ b'R' ∷ b'T' ∷ b'Y' ∷ b'U' ∷ b'I' ∷ b'O' ∷ b'P' ∷ b'{' ∷ b'}'
    ∷ b'\n' ∷ 0 ∷ b'A' ∷ b'S' ∷ b'D' ∷ b'F' ∷ b'G' ∷ b'H' ∷ b'J' ∷ b'K' ∷ b'L' ∷ b':' ∷ 34 ∷ b'~'
    ∷ 0 ∷ b'|' ∷ b'Z' ∷ b'X' ∷ b'C' ∷ b'V' ∷ b'B' ∷ b'N' ∷ b'M' ∷ b'<' ∷ b'>' ∷ b'?' ∷ 0 ∷ b'*' ∷ 0
    ∷ b' ' ∷ 0 ∷ 0 ∷ 0 ∷ 0 ∷ 0 ∷ 0 ∷ 0 ∷ 0 ∷ 0 ∷ 0 ∷ 0 ∷ 0 ∷ 0 ∷ 0 ∷ 0 ∷ 0 ∷ b'-' ∷ 0 ∷ 0 ∷ 0 ∷ b'+'
    ∷ []

-- The static variables of keyboard.c (`status2` is never used).
pub record Keyboard : Type 0 where
  pub scancode : ℕ
  pub last_scancode : ℕ
  pub status : ℕ

-- `past i` is the byte that a read at index `i` finds past the end of a table of 128 bytes.
module _ (past : ℕ → ℕ) where
  pub entry : List ℕ → ℕ → ℕ
  entry table i = if ltb i 128 then get_or table i 0 else past i

  -- The character that a key prints, with the shift and the caps lock bit.
  pub key_char : Bool → Bool → ℕ → Option ℕ
  key_char shifted caps code =
      let temp = if shifted then entry kbdus_shift code else entry kbdus code in
      if (bit_and code 0x80 == 0) && not (temp == 0)
      then (if caps && ((leb 65 temp && leb temp 90) || (leb 97 temp && leb temp 122))
          then (if shifted then some (entry kbdus code) else some (entry kbdus_shift code))
          else some temp)
      else none

-- The `switch` over the keys that print nothing; those without a case leave the status.
pub switch_status : ℕ → ℕ → ℕ
switch_status code status =
    if code == 0x1D
    then bit_or status ctrl
    else if code == 0x9D
    then u8 (bit_and status (not32 ctrl))
    else if code == 0x2A
    then bit_or status shift
    else if code == 0xAA
    then u8 (bit_and status (not32 shift))
    else if code == 0x36
    then bit_or status shift
    else if code == 0xB6
    then u8 (bit_and status (not32 shift))
    else if code == 0x38
    then bit_or status alt
    else if code == 0xB8
    then u8 (bit_and status (not32 alt))
    else if code == 0x3A
    then bit_xor status caps_lock
    else if code == 0x45
    then bit_xor status num_lock
    else if code == 0x46
    then bit_xor status scroll_lock
    else status

-- The `switch` is the other branch of the test under which a character is printed.
pub next_status : Option ℕ → ℕ → ℕ → ℕ
next_status none code status = switch_status code status
next_status (some c) code status = status

-- One interrupt with the scancode `code` from the data port: the new variables, and the character
-- given to `printf("%c", …)`, if any.
pub keyboard_handler : (ℕ → ℕ) → Keyboard → ℕ → Keyboard × Option ℕ
keyboard_handler past k code =
    let shifted = not (bit_and k.status shift == 0) in
    let caps = not (bit_and k.status caps_lock == 0) in
    let printed = key_char past shifted caps code in
    let status = next_status printed code k.status in
    (record { scancode = code; last_scancode = code; status = status }, printed)

-- The bit of the controller's status that says that a byte waits to be read.
abbrev pub op_buf_status : ℕ
op_buf_status = 0x01

-- The loop that reads what is left from boot. The list holds what the ports return, in order: a
-- status, then, where the loop goes on, a byte of data. The result is what is still to be read; `none`
-- means that the loop still runs when the list ends.
pub drain : List ℕ → Option (List ℕ)
drain [] = none
drain (s ∷ []) = if bit_and s op_buf_status == 1 then none else some []
drain (s ∷ d ∷ later) = if bit_and s op_buf_status == 1 then drain later else some (d ∷ later)

-- What `init_keyboard` leaves, with the bytes that it sends to ports.
pub record Setup : Type 0 where
  pub handlers : Handlers
  pub keyboard : Keyboard
  pub reads : List ℕ
  pub outs : List (ℕ × ℕ)

-- `handler` is the address of `keyboard_handler`.
pub init_keyboard : ℕ → Handlers → Keyboard → List ℕ → Option Setup
init_keyboard handler h k reads = drain reads >>= λ later. some (record {
  handlers = register_interrupt_handler 33 handler h;
  keyboard = record k { status = 0 };
  reads = later;
  outs = (pic_master_data_port, 0xFC) ∷ (pic_slave_data_port, 0xFF) ∷ [];
})
