-- ===== src/Kernel/Requests/Types.antt =====
-- The C types of the variables that the interrupt handlers change: those of lumos/arch/i386/tty.c and
-- keyboard.c, and the 32-bit `ticks` of timer.c.
use osd.Base.{ℕ, ◌^◌, ◌<◌, List, [], ◌∷◌, Memory, Option, arith}
use osd.Tty.Types.{HasTypes, terminal_write-HasTypes}
use osd.Keyboard.{Keyboard}
use osd.Keyboard.Types.{HasBytes, keyboard_handler-HasBytes}
use osd.Kernel.Requests.{Running}
use osd.Kernel.Requests.Served.{
  AllRequests, Answers, ticks, types, reports, AllAnswers, idle, then_, Served,
}

pub record AllTypes (s : Running) : Type 0 where
  pub terminal : HasTypes s.terminal
  pub keyboard : HasBytes s.keyboard
  pub ticks_fit : s.ticks < 2 ^ 32

module _ (fuel : ℕ) (unknown past : Memory) where
  Answers-HasBytes :
      {k : Keyboard} {irq byte : ℕ} {k' : Keyboard} {t : List ℕ}
      → byte < 2 ^ 8
      → Answers fuel unknown past k (irq, byte) k' t
      → HasBytes k
      → HasBytes k'
  Answers-HasBytes b (ticks e) h = h
  Answers-HasBytes b (types e) h = keyboard_handler-HasBytes past _ _ b h
  Answers-HasBytes b (reports e e' s s') h = h

  AllAnswers-HasBytes :
      {k k' : Keyboard} (rs : List (ℕ × ℕ)) {t : List ℕ}
      → AllRequests rs
      → AllAnswers fuel unknown past k rs k' t
      → HasBytes k
      → HasBytes k'
  AllAnswers-HasBytes [] all idle h = h
  AllAnswers-HasBytes ((irq, byte) ∷ rs) (r, all) (then_ a rest) h =
      AllAnswers-HasBytes rs all rest (Answers-HasBytes r.1 a h)

  pub Served-AllTypes :
      (rs : List (ℕ × ℕ)) (s : Running) {o : Option (Running × List (ℕ × ℕ))}
      → AllRequests rs
      → AllTypes s
      → (v : Served fuel unknown past rs s o) → AllTypes v.after
  Served-AllTypes rs s all t v = record {
    terminal = rw v.screen (terminal_write-HasTypes s.terminal v.shown_text t.terminal);
    keyboard = AllAnswers-HasBytes rs all v.answers t.keyboard;
    ticks_fit = omega (arith, v.ticks);
  }
