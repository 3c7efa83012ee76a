-- ===== src/Keyboard/Init.antt =====
-- How `init_keyboard` of lumos/arch/i386/keyboard.c reads what is left from boot.
use osd.Base.{ℕ, bit_and, List, [], ◌∷◌, some, ◌==◌, false, ◌≡◌, ◌≢◌, refl, arith}
use osd.Idt.{pic_master_data_port, pic_slave_data_port}
use osd.Isr.{Handlers, register_interrupt_handler}
use osd.Keyboard.{Keyboard, op_buf_status, drain, init_keyboard}

-- What the ports return for bytes that wait, each with the status read before it, and after them.
abbrev pub reads_of : List (ℕ × ℕ) → List ℕ → List ℕ
reads_of [] later = later
reads_of ((status, byte) ∷ waiting) later = status ∷ byte ∷ reads_of waiting later

-- Each status has the bit set.
abbrev pub AllWaiting : List (ℕ × ℕ) → Type 0
AllWaiting [] = Unit {0}
AllWaiting ((status, byte) ∷ waiting) = (bit_and status op_buf_status ≡ 1) × AllWaiting waiting

drain-reads_of :
    (waiting : List (ℕ × ℕ)) (status : ℕ) (later : List ℕ)
    → AllWaiting waiting
    → bit_and status op_buf_status ≢ 1
    → drain (reads_of waiting (status ∷ later)) ≡ some later
unfolding drain
drain-reads_of [] status [] all ne =
    let e : bit_and status op_buf_status == 1 ≡ false = ground (arith, ne) in rw e refl
drain-reads_of [] status (x ∷ later) all ne =
    let e : bit_and status op_buf_status == 1 ≡ false = ground (arith, ne) in rw e refl
drain-reads_of ((s, byte) ∷ waiting) status later all ne =
    rw all.0 (drain-reads_of waiting status later all.1 ne)

-- `init_keyboard` returns at the first status without the bit, after it has read one byte for each
-- status before; the keyboard's handler is then that of vector 33, no status bit is set, and the last
-- bytes sent to the interrupt controllers leave only the requests 0 and 1 on.
pub init_keyboard_lem :
    (at : ℕ) (h : Handlers) (k : Keyboard) (waiting : List (ℕ × ℕ)) (status : ℕ) (later : List ℕ)
    → AllWaiting waiting
    → bit_and status op_buf_status ≢ 1
    → init_keyboard at h k (reads_of waiting (status ∷ later))
      ≡ some (record {
        handlers = register_interrupt_handler 33 at h;
        keyboard = record { scancode = k.scancode; last_scancode = k.last_scancode; status = 0 };
        reads = later;
        outs = (pic_master_data_port, 0xFC) ∷ (pic_slave_data_port, 0xFF) ∷ [];
      })
unfolding init_keyboard
init_keyboard_lem at h k waiting status later all ne =
    rw (drain-reads_of waiting status later all ne) refl
