-- ===== src/Isr/Messages.antt =====
-- The message of `irq_handler` in lumos/arch/i386/isr.c for a request without a handler.
use osd.Base.{ℕ, Memory, List, [], ◌∷◌, ◌++◌, length-append, codes}
use osd.Base.{some, ◌≡◌, inl, refl, arith}
use osd.Tty.{Terminal, terminal_write}
use osd.Libc.Format.{number}
use osd.Libc.Format.Render.{converted}
use osd.Libc.Format.Literal.{literal, only, Shown}
use osd.Libc.Format.Sinks.{printf-Renders}
use osd.Isr.{irq_message, irq_vector}

abbrev pub message :
    {fuel : ℕ} {unknown : Memory} {irq : ℕ}
    → Shown fuel unknown 10 irq
    → Shown fuel unknown 10 (irq_vector irq)
    → List ℕ
message a b = codes "IRQ called - " ++ (a.out ++ (codes " - " ++ (b.out ++ codes "\n")))

module _ (fuel : ℕ) (unknown : Memory) where
  pub message_shown :
      (t : Terminal) (irq : ℕ) (a : Shown fuel unknown 10 irq)
      (b : Shown fuel unknown 10 (irq_vector irq))
      → irq_message fuel unknown t irq (irq_vector irq) ≡ some (terminal_write t (message a b))
  unfolding irq_message
  message_shown t irq a b =
      let rest = codes " - " ++ (b.out ++ codes "\n") in
      let line =
        printf-Renders fuel unknown t (codes "IRQ called - %d - %d\n") (message a b)
          (number irq ∷ number (irq_vector irq) ∷ [])
          (literal (codes "IRQ called - ") refl (
            converted refl (inl (refl, refl)) a.returned (
              literal (codes " - ") refl
                (converted refl (inl (refl, refl)) b.returned (only (codes "\n") refl)))))
          (omega (
            arith,
            length-append a.out rest,
            length-append b.out (codes "\n"),
            a.short,
            b.short,
          )) in
      rw line refl
