-- ===== src/Isr/Dispatch.antt =====
-- What lumos/arch/i386/isr.c calls and acknowledges.
use osd.Base.{ℕ, ltb, ◌==◌, if◌then◌else◌, [], ◌∷◌, ◌≡◌, ◌≢◌, arith}
use osd.Isr.{Handlers, register_interrupt_handler, irq_handler, irq_vector, pic_eoi}
use osd.Idt.{pic_master_command_port, pic_slave_command_port}

module _ {S : Type 0} (call : ℕ → S → S) (report : ℕ → ℕ → S → S) (h : Handlers) (s : S) where
  -- After a handler, not the null pointer, is registered for a request's vector, that request calls
  -- it, and every other request does what it did before.
  pub irq_handler-register_interrupt_handler :
      (n k address : ℕ)
      → address ≢ 0
      → (irq_handler call report
          (register_interrupt_handler (irq_vector n) address h)
          k
          (irq_vector k)
          s).0
        ≡ (if k == n then call address s else (irq_handler call report h k (irq_vector k) s).0)
  unfolding irq_handler register_interrupt_handler
  irq_handler-register_interrupt_handler n k address ne = ground arith

  -- Every request is acknowledged, with or without a handler: at the master last, and before that at
  -- the slave exactly for the requests from 8 on.
  pub irq_handler-eoi :
      (irq idt : ℕ)
      → (irq_handler call report h irq idt s).1 ≡ (
          if ltb irq 8
          then (pic_master_command_port, pic_eoi) ∷ []
          else (pic_slave_command_port, pic_eoi) ∷ (pic_master_command_port, pic_eoi) ∷ [])
  unfolding irq_handler
  irq_handler-eoi irq idt = ground arith
