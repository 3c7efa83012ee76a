-- ===== src/Examples.antt =====
-- Instances of the theorems on descriptors, interrupts, the timer and the serial port.
use osd.Base.{ℕ, ◌+◌, ◌-◌, ◌*◌, ◌^◌, ◌≤◌, ◌<◌, List, [], ◌∷◌, map, none, some}
use osd.Base.{◌≡◌, arith, true, false}
use osd.Gdt.{gdt_create_entry, gdt_init}
use osd.Gdt.Decode.{decode, flat, decode-gdt_create_entry, decode-gdt_init}
use osd.Idt.{idt_init}
use osd.Idt.Vectors.{handler_address, handler_address-idt_init}
use osd.Isr.{Handlers, irq_handler, register_interrupt_handler, irq_vector}
use osd.Isr.Dispatch.{irq_handler-register_interrupt_handler, irq_handler-eoi}
use osd.Timer.{sleep, sleep_loop, init_timer, divider, pit_channel0_data}
use osd.Timer.Sleep.{Slept, sleep-Slept, sleep_loop-forever}
use osd.Timer.Divider.{word_of, sent_to, word_of-init_timer, divider_lem}
use osd.Com.{com1, log}
use osd.Com.Log.{count_ready, log_lem}

decode-gdt_create_entry_example :
    decode (gdt_create_entry 0x12345678 0xABCDE 0x9A 0xC0)
    ≡ record { base = 0x12345678; limit = 0xABCDE; flags = 12; access = 0x9A }
decode-gdt_create_entry_example =
    decode-gdt_create_entry 0x12345678 0xABCDE 0x9A 12 (omega arith) (omega arith)

gdt_init_run :
    map decode (gdt_init 0xC0105000 0xC0104000).entries
    ≡ record { base = 0; limit = 0; flags = 0; access = 0 }
      ∷ flat 0x9A
      ∷ flat 0x92
      ∷ flat 0xFA
      ∷ flat 0xF2
      ∷ record { base = 0xC0105000; limit = 103; flags = 1; access = 0x89 }
      ∷ []
gdt_init_run = decode-gdt_init 0xC0105000 0xC0104000 (omega arith)

abbrev stub : ℕ → ℕ
stub k = 0x100000

stub-lt : (k : ℕ) → stub k < 2 ^ 32
stub-lt k = omega arith

handler_address-idt_init_example : handler_address ((idt_init stub stub 0x5000).table 33) ≡ 0x100000
handler_address-idt_init_example =
    handler_address-idt_init stub stub 0x5000 33 stub-lt stub-lt (omega arith)

-- A state that counts the calls of handlers.
abbrev call : ℕ → ℕ → ℕ
call address s = s + 1

abbrev report : ℕ → ℕ → ℕ → ℕ
report irq idt s = s

abbrev no_handlers : Handlers
no_handlers k = 0

register_interrupt_handler_run :
    (irq_handler call report
      (register_interrupt_handler (irq_vector 1) 0x2000 no_handlers)
      1
      (irq_vector 1)
      7).0
    ≡ 8
register_interrupt_handler_run =
    irq_handler-register_interrupt_handler call report no_handlers 7 1 1 0x2000 (omega arith)

eoi_run : (irq_handler call report no_handlers 9 41 7).1 ≡ (0xA0, 0x20) ∷ (0x20, 0x20) ∷ []
eoi_run = irq_handler-eoi call report no_handlers 7 9 41

sleep_run : Slept 105 5 (true ∷ false ∷ true ∷ []) (sleep 50 2000 5 (true ∷ false ∷ true ∷ []))
sleep_run = sleep-Slept 50 2000 5 (true ∷ false ∷ true ∷ []) (omega arith) (omega arith)

forever_run : sleep_loop (2 ^ 32 - 1) 5 (true ∷ true ∷ []) ≡ none
forever_run = sleep_loop-forever 5 (true ∷ true ∷ []) (omega arith)

init_timer_run : word_of (sent_to pit_channel0_data (init_timer 50)) ≡ divider 50
init_timer_run = word_of-init_timer 50

divider_run : (divider 50 * 50 ≤ 1193182) × (1193182 < divider 50 * 50 + 50)
divider_run = divider_lem 50 (omega arith) (omega arith)

abbrev reads : List ℕ
reads = 0 ∷ 0x20 ∷ 0 ∷ 0x60 ∷ []

enough_ready : 2 ≤ count_ready reads
unfolding count_ready
enough_ready = omega arith

log_run :
    (later : List ℕ) × (log reads (104 ∷ 105 ∷ []) ≡ some (later, (com1, 104) ∷ (com1, 105) ∷ []))
    × (count_ready later + 2 ≡ count_ready reads)
log_run = log_lem reads (104 ∷ 105 ∷ []) enough_ready
