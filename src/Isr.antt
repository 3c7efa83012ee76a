-- ===== src/Isr.antt =====
-- Interrupt dispatch, lumos/arch/i386/isr.c and the stubs of lumos/arch/i386/interrupts.S.
pub mod Dispatch
pub mod Exceptions
pub mod Messages
use osd.Base.{ℕ, ◌+◌, leb, ◌==◌, if◌then◌else◌, Memory, List, [], ◌∷◌, ◌++◌, get_elem?, codes}
use osd.Base.{Option, some, ◌>>=◌}
use osd.Tty.{Terminal}
use osd.Libc.Format.{number, text, printf}
use osd.Idt.{pic_master_command_port, pic_slave_command_port}

abbrev pub pic_eoi : ℕ
pic_eoi = 0x20

-- `handlers`: the address of the handler of each vector, 0 where none is registered.
abbrev pub Handlers : Type 0
Handlers = ℕ → ℕ

unfoldable pub register_interrupt_handler : ℕ → ℕ → Handlers → Handlers
register_interrupt_handler idt_num handler h k = if k == idt_num then handler else h k

-- The bytes that acknowledge an interrupt, with their ports.
pub send_eoi : ℕ → List (ℕ × ℕ)
send_eoi irq_num =
    (if leb 8 irq_num then (pic_slave_command_port, pic_eoi) ∷ [] else [])
    ++ (pic_master_command_port, pic_eoi) ∷ []

-- `call a s` is the effect of the handler at address `a`, and `report irq idt s` that of the message
-- for an interrupt without one, on a state with the bytes sent to ports.
module _ {ℓ} {S : Type ℓ} (call : ℕ → S → S) (report : ℕ → ℕ → S → S) where
  unfoldable pub irq_handler : Handlers → ℕ → ℕ → S → S × List (ℕ × ℕ)
  unfolding send_eoi
  irq_handler h irq_num idt_num s =
      let s' = if h idt_num == 0 then report irq_num idt_num s else call (h idt_num) s in
      (s', send_eoi irq_num)

-- The stub of interrupt request `n` pushes `n` and its vector `n` + 32.
abbrev pub irq_vector : ℕ → ℕ
irq_vector n = n + 32

pub exception_messages : List (List ℕ)
exception_messages =
    codes "Division by zero"
    ∷ codes "Debug"
    ∷ codes "Non Maskable Interrupt"
    ∷ codes "Breakpoint"
    ∷ codes "Overflow"
    ∷ codes "BOUND range exceeded"
    ∷ codes "Invalid Opcode"
    ∷ codes "Device not available (no math coprocesor)"
    ∷ codes "Double Fault"
    ∷ codes "Coprocessor Segment Overrun"
    ∷ codes "Invalid TSS"
    ∷ codes "Segment not present"
    ∷ codes "Stack-Segment fault"
    ∷ codes "General Protection"
    ∷ codes "Page fault"
    ∷ codes "Reserved"
    ∷ codes "Floating point error"
    ∷ codes "Alignment Check"
    ∷ codes "Machine Check"
    ∷ codes "SIMD Floating-Point exception"
    ∷ codes "Virtualisation Exception"
    ∷ codes "Reserved"
    ∷ codes "Reserved"
    ∷ codes "Reserved"
    ∷ codes "Reserved"
    ∷ codes "Reserved"
    ∷ codes "Reserved"
    ∷ codes "Reserved"
    ∷ codes "Reserved"
    ∷ codes "Reserved"
    ∷ codes "Reserved"
    ∷ codes "Reserved"
    ∷ []

-- The screen on which the processor halts, for the vector, the error code and the address that the
-- stub leaves on the stack. `none` also where the vector has no message.
pub isr_handler : ℕ → Memory → Terminal → ℕ → ℕ → ℕ → Option Terminal
isr_handler fuel unknown t isr_num error_code eip = do
  gate ← printf fuel unknown t (codes "\nReceived exception :: GATE %d\n") (number isr_num ∷ [])
  message ← get_elem? exception_messages isr_num
  what ← printf fuel unknown gate.0 (codes "%s(%d)\n") (text message ∷ number error_code ∷ [])
  at ← printf fuel unknown what.0 (codes "Exception occurred @ %x\n") (number eip ∷ [])
  some at.0

-- The message of `irq_handler` for a request without a handler.
pub irq_message : ℕ → Memory → Terminal → ℕ → ℕ → Option Terminal
irq_message fuel unknown t irq_num idt_num = do
  r ← printf fuel unknown t (codes "IRQ called - %d - %d\n") (number irq_num ∷ number idt_num ∷ [])
  some r.0
