-- ===== src/Com.antt =====
-- The serial port, lumos/arch/i386/com.c and lumos/include/lumos/com.h, and `log` of
-- libc/stdio/logf.c, which sends a text through it.
pub mod Log
use osd.Base.{ℕ, ◌+◌, bit_and, ◌==◌, if◌then◌else◌, List, [], ◌∷◌, ◌++◌, Option, none, some, ◌>>=◌}

abbrev pub com1 : ℕ
com1 = 0x3f8

-- The registers, as offsets from the port. The divisor of the rate takes the place of the first two
-- while bit 7 of the line control is set.
abbrev pub com_data : ℕ
com_data = 0

abbrev pub com_interrupt_enable : ℕ
com_interrupt_enable = 1

abbrev pub com_baud_div_lsb : ℕ
com_baud_div_lsb = 0

abbrev pub com_baud_div_msb : ℕ
com_baud_div_msb = 1

abbrev pub com_fifo_ctl : ℕ
com_fifo_ctl = 2

abbrev pub com_line_ctl : ℕ
com_line_ctl = 3

abbrev pub com_dlab : ℕ
com_dlab = 3

abbrev pub com_modem_ctl : ℕ
com_modem_ctl = 4

abbrev pub com_line_status : ℕ
com_line_status = 5

-- The bytes that `init_com1` sends, with their ports in order; `echo` is what the loopback test reads
-- back.
unfoldable pub init_com1 : ℕ → List (ℕ × ℕ)
init_com1 echo =
    (com1 + com_interrupt_enable, 0x00)
    ∷ (com1 + com_dlab, 0x80)
    ∷ (com1 + com_baud_div_lsb, 0x03)
    ∷ (com1 + com_baud_div_msb, 0x00)
    ∷ (com1 + com_line_ctl, 0x03)
    ∷ (com1 + com_fifo_ctl, 0xC7)
    ∷ (com1 + com_modem_ctl, 0x0B)
    ∷ (com1 + com_modem_ctl, 0x1E)
    ∷ (com1 + com_data, 0x55)
    ∷ (if echo == 0x55 then (com1 + com_modem_ctl, 0x0F) ∷ [] else [])

-- The list holds what the reads of the line status return, in order. The result is the reads still to
-- come and the byte sent; `none` means that the loop still waits when the list ends.
pub com1_send : List ℕ → ℕ → Option (List ℕ × (ℕ × ℕ))
com1_send [] ch = none
com1_send (status ∷ later) ch =
    if bit_and status 0x20 == 0 then com1_send later ch else some (later, (com1 + com_data, ch))

-- What is sent before, in front of what is sent later.
pub prepend : ℕ × ℕ → Option (List ℕ × List (ℕ × ℕ)) → Option (List ℕ × List (ℕ × ℕ))
prepend sent none = none
prepend sent (some (reads, later)) = some (reads, sent ∷ later)

-- `log` sends each byte in turn; the result has all that was sent.
pub log : List ℕ → List ℕ → Option (List ℕ × List (ℕ × ℕ))
log reads [] = some (reads, [])
log reads (c ∷ cs) = com1_send reads c >>= λ r. prepend r.1 (log r.0 cs)
