-- ===== src/Kernel/Requests/Served.antt =====
-- All sixteen interrupt requests while the kernel runs: those of the timer and of the keyboard, and the
-- message of `irq_handler` (lumos/arch/i386/isr.c) for the others.
use osd.Base.{ℕ, ◌+◌, ◌%◌, ◌^◌, ◌<◌, List, [], ◌∷◌, ◌++◌, Memory, refl, arith}
use osd.Base.{Option, some, ◌≡◌, ◌≢◌, ◌∙◌, inl, inr, ltb, ◌==◌, false, if◌then◌else◌, ap, sym}
use native.Mathlib.Decide.{ℕ_discrete}
use osd.Tty.{terminal_write}
use osd.Tty.Screen.{terminal_write-empty, terminal_write-append}
use osd.Libc.Format.Literal.{Shown, shown}
use osd.Idt.{pic_master_command_port, pic_slave_command_port}
use osd.Isr.{Handlers, irq_handler, irq_vector, pic_eoi}
use osd.Isr.Messages.{message, message_shown}
use osd.Timer.{timer_tick}
use osd.Keyboard.{Keyboard, keyboard_handler}
use osd.Kernel.{Image}
use osd.Kernel.Requests.{Running, report_request, serve, serve_all}
use osd.Kernel.Requests.Interleaved.{IsServed, serve-tick, serve-key, typed, count_ticks}

-- Numbers of requests, and bytes from the keyboard.
abbrev pub AllRequests : List (ℕ × ℕ) → Type 0
AllRequests [] = Unit {0}
AllRequests ((irq, byte) ∷ later) = ((irq < 16) × (byte < 2 ^ 8)) × AllRequests later

-- The bytes that acknowledge the requests: the master hears of every request, and the slave, before
-- it, of those from 8 on.
abbrev pub acknowledgement : ℕ → List (ℕ × ℕ)
acknowledgement irq =
    if ltb irq 8
    then (pic_master_command_port, pic_eoi) ∷ []
    else (pic_slave_command_port, pic_eoi) ∷ (pic_master_command_port, pic_eoi) ∷ []

abbrev pub acknowledgements : List (ℕ × ℕ) → List (ℕ × ℕ)
acknowledgements [] = []
acknowledgements ((irq, byte) ∷ later) = acknowledgement irq ++ acknowledgements later

-- What a request shows on the screen, and how it changes the keyboard's variables.
pub data Answers (fuel : ℕ) (unknown past : Memory)
    : Keyboard → ℕ × ℕ → Keyboard → List ℕ → Type 0 where
  ticks : {k : Keyboard} {irq byte : ℕ} → irq ≡ 0 → Answers fuel unknown past k (irq, byte) k []
  types :
      {k : Keyboard} {irq byte : ℕ}
      → irq ≡ 1
      → Answers fuel unknown past k
          (irq, byte)
          (keyboard_handler past k byte).0
          (typed (keyboard_handler past k byte).1)
  reports :
      {k : Keyboard} {irq byte : ℕ}
      → irq ≢ 0
      → irq ≢ 1
      → (a : Shown fuel unknown 10 irq) (b : Shown fuel unknown 10 (irq_vector irq))
      → Answers fuel unknown past k (irq, byte) k (message a b)

-- The same for requests one after the other.
pub data AllAnswers (fuel : ℕ) (unknown past : Memory)
    : Keyboard → List (ℕ × ℕ) → Keyboard → List ℕ → Type 0 where
  idle : {k : Keyboard} → AllAnswers fuel unknown past k [] k []
  then_ :
      {k k' k'' : Keyboard} {r : ℕ × ℕ} {rs : List (ℕ × ℕ)} {a b : List ℕ}
      → Answers fuel unknown past k r k' a
      → AllAnswers fuel unknown past k' rs k'' b
      → AllAnswers fuel unknown past k (r ∷ rs) k'' (a ++ b)

-- No handler but the timer's and the keyboard's is registered.
abbrev pub Others : Handlers → Type 0
Others h = (v : ℕ) → v ≢ 32 → v ≢ 33 → h v ≡ 0

module _ (fuel : ℕ) (unknown past : Memory) where
  -- What the requests leave.
  pub record Served (rs : List (ℕ × ℕ)) (s : Running) (o : Option (Running × List (ℕ × ℕ)))
      : Type 0 where
    pub after : Running
    pub shown_text : List ℕ
    pub returns : o ≡ some (after, acknowledgements rs)
    pub answers : AllAnswers fuel unknown past s.keyboard rs after.keyboard shown_text
    pub screen : after.terminal ≡ terminal_write s.terminal shown_text
    pub ticks : after.ticks ≡ (s.ticks + count_ticks rs) % 2 ^ 32

  -- What one request leaves.
  pub record ServedOne (r : ℕ × ℕ) (s : Running) (o : Option Running × List (ℕ × ℕ)) : Type 0 where
    pub after : Running
    pub shown_text : List ℕ
    pub returns : o.0 ≡ some after
    pub sent : o.1 ≡ acknowledgement r.0
    pub answers : Answers fuel unknown past s.keyboard r after.keyboard shown_text
    pub screen : after.terminal ≡ terminal_write s.terminal shown_text
    pub ticks : after.ticks ≡ (s.ticks + count_ticks (r ∷ [])) % 2 ^ 32

  module _ (image : Image) (h : Handlers) (w : IsServed image h) (others : Others h)
      (enough : 2 ^ 32 < fuel) where
    serve-report :
        (irq byte : ℕ) (s : Running)
        → irq < 16
        → irq ≢ 0
        → irq ≢ 1
        → s.ticks < 2 ^ 32
        → ServedOne (irq, byte) s (serve fuel unknown past image h (irq, byte) s)
    unfolding serve report_request irq_handler
    serve-report irq byte s below no_tick no_key in_ticks =
        let a = shown fuel unknown 10 irq (inr (inl refl)) (omega arith) enough in
        let b = shown fuel unknown 10 (irq_vector irq) (inr (inl refl)) (omega arith) enough in
        let free = others (irq_vector irq) (omega arith) (omega arith) in
        let plain : irq == 0 ≡ false = ground arith in
        record {
          after = record s { terminal = terminal_write s.terminal (message a b) };
          shown_text = message a b;
          returns = rw (free, message_shown fuel unknown s.terminal irq a b) refl;
          sent = ground arith;
          answers = reports no_tick no_key a b;
          screen = refl;
          ticks = rw plain (omega arith);
        }

    pub serve-One :
        (irq byte : ℕ) (s : Running)
        → irq < 16
        → s.ticks < 2 ^ 32
        → ServedOne (irq, byte) s (serve fuel unknown past image h (irq, byte) s)
    unfolding timer_tick
    serve-One irq byte s below in_ticks = elim (ℕ_discrete irq 0) [
      | yes tick ↦ rw tick (ticked (serve-tick fuel unknown past image h w byte s))
      | no no_tick ↦ elim (ℕ_discrete irq 1) [
        | yes key ↦ rw key (pressed (serve-key fuel unknown past image h w byte s))
        | no no_key ↦ serve-report irq byte s below no_tick no_key in_ticks
      ]
    ]
      where
        after_tick : Running
        after_tick = record s { ticks = timer_tick s.ticks }

        ticked :
            {o : Option Running × List (ℕ × ℕ)}
            → o ≡ (some after_tick, (pic_master_command_port, pic_eoi) ∷ [])
            → ServedOne (0, byte) s o
        ticked e = record {
          after = after_tick;
          shown_text = [];
          returns = ap (λ r. r.0) e;
          sent = ap (λ r. r.1) e;
          answers = ticks refl;
          screen = sym (terminal_write-empty s.terminal);
          ticks = omega arith;
        }

        one : Keyboard × Option ℕ
        one = keyboard_handler past s.keyboard byte

        after_key : Running
        after_key = record s {
          terminal = terminal_write s.terminal (typed one.1);
          keyboard = one.0;
        }

        pressed :
            {o : Option Running × List (ℕ × ℕ)}
            → o ≡ (some after_key, (pic_master_command_port, pic_eoi) ∷ [])
            → ServedOne (1, byte) s o
        pressed e = record {
          after = after_key;
          shown_text = typed one.1;
          returns = ap (λ r. r.0) e;
          sent = ap (λ r. r.1) e;
          answers = types refl;
          screen = refl;
          ticks = omega arith;
        }

    -- With fuel above 2 ^ 32 and 32-bit ticks, where the handlers of the timer and of the keyboard are
    -- registered, at addresses that differ and are not null, and no others, any of the sixteen requests,
    -- in any order and with any bytes from the keyboard, are all served: the keyboard and the screen are as after the keyboard's keys and the messages of
    -- the requests without a handler, one after the other, the 32-bit ticks are counted modulo 2 ^ 32,
    -- and each request is acknowledged, at the slave too exactly from request 8 on.
    pub serve_all-Served :
        (rs : List (ℕ × ℕ)) (s : Running)
        → AllRequests rs
        → s.ticks < 2 ^ 32
        → Served rs s (serve_all fuel unknown past image h rs s)
    unfolding serve_all
    serve_all-Served [] s lines in_ticks = record {
      after = s;
      shown_text = [];
      returns = refl;
      answers = idle;
      screen = sym (terminal_write-empty s.terminal);
      ticks = omega arith;
    }
    serve_all-Served ((irq, byte) ∷ rs) s (r, lines) in_ticks =
        let one = serve-One irq byte s r.0 in_ticks in
        let rest = serve_all-Served rs one.after lines (omega (arith, one.ticks)) in
        record {
          after = rest.after;
          shown_text = one.shown_text ++ rest.shown_text;
          returns = rw (one.returns, rest.returns, one.sent) refl;
          answers = then_ one.answers rest.answers;
          screen =
              rest.screen
              ∙ ap (λ t. terminal_write t rest.shown_text) one.screen
              ∙ sym (terminal_write-append s.terminal one.shown_text rest.shown_text);
          ticks = rest.ticks ∙ counted (one.ticks);
        }
      where
        counted :
            {t : ℕ}
            → t ≡ (s.ticks + count_ticks ((irq, byte) ∷ [])) % 2 ^ 32
            → (t + count_ticks rs) % 2 ^ 32 ≡ (s.ticks + count_ticks ((irq, byte) ∷ rs)) % 2 ^ 32
        counted e = ground (arith, e)
