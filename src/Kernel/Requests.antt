-- ===== src/Kernel/Requests.antt =====
-- Interrupt requests while the kernel runs: `irq_handler` of lumos/arch/i386/isr.c with the handlers of
-- timer.c and keyboard.c behind it, also while `sleep` of timer.c waits.
pub mod Interleaved
pub mod Served
pub mod Types
pub mod Sleep
pub mod Booted
mod Examples
use osd.Base.{ℕ, List, [], ◌∷◌, ◌++◌, codes, Memory}
use osd.Base.{Option, none, some, ◌>>=◌, leb, ◌==◌, if◌then◌else◌}
use osd.Tty.{Terminal}
use osd.Libc.Format.{number, printf}
use osd.Isr.{Handlers, irq_handler, irq_vector, irq_message}
use osd.Timer.{timer_tick, target_ticks}
use osd.Keyboard.{Keyboard, keyboard_handler}
use osd.Kernel.{Image}

-- The variables that the handlers change.
pub record Running : Type 0 where
  pub terminal : Terminal
  pub keyboard : Keyboard
  pub ticks : ℕ

-- Where `sleep` has got to when the requests that it waits for have come: it has returned, with the
-- bytes sent and the requests still to come, or it still waits.
pub data Sleeping : Type 0 where
  woken : Running → List (ℕ × ℕ) → List (ℕ × ℕ) → Sleeping
  waiting : Running → List (ℕ × ℕ) → Sleeping

-- The same with bytes sent before.
pub sending : List (ℕ × ℕ) → Sleeping → Sleeping
sending sent (woken s outs later) = woken s (sent ++ outs) later
sending sent (waiting s outs) = waiting s (sent ++ outs)

-- `past` is what lies behind the keyboard's tables.
module _ (fuel : ℕ) (unknown past : Memory) where
  -- `printf("%c", …)` of the keyboard's handler, where it prints.
  pub print_key : Terminal → Option ℕ → Option Terminal
  print_key t none = some t
  print_key t (some c) = printf fuel unknown t (codes "%c") (number c ∷ []) >>= λ r. some r.0

  -- The keyboard's handler, with the byte that the data port returns.
  pub press : ℕ → Running → Option Running
  press byte s =
      let r = keyboard_handler past s.keyboard byte in
      print_key s.terminal r.1 >>= λ t. some (record s { terminal = t; keyboard = r.0 })

  module _ (image : Image) where
    -- The function at an address. `none` where the address is that of no handler.
    pub call_handler : ℕ → ℕ → Running → Option Running
    call_handler byte at s =
        if at == image.timer_tick
        then some (record s { ticks = timer_tick s.ticks })
        else (if at == image.keyboard_handler then press byte s else none)

    -- The message of a request without a handler.
    pub report_request : ℕ → ℕ → Running → Option Running
    report_request irq_num idt_num s = irq_message fuel unknown s.terminal irq_num idt_num >>= λ t.
        some (record s { terminal = t })

    -- One request with its number, and the byte that the keyboard's data port holds.
    pub serve : Handlers → ℕ × ℕ → Running → Option Running × List (ℕ × ℕ)
    serve h (irq, byte) s =
        irq_handler (λ at o. o >>= call_handler byte at) (λ n v o. o >>= report_request n v) h irq
          (irq_vector irq) (some s)

    pub serve_all : Handlers → List (ℕ × ℕ) → Running → Option (Running × List (ℕ × ℕ))
    serve_all h [] s = some (s, [])
    serve_all h (r ∷ later) s =
        let one = serve h r s in
        one.0 >>= λ s'. serve_all h later s' >>= λ all. some (all.0, one.1 ++ all.1)

    -- The loop of `sleep`; each request of the list ends one `hlt`, and is served.
    pub sleep_serving : Handlers → ℕ → List (ℕ × ℕ) → Running → Option Sleeping
    sleep_serving h target [] s =
        if leb s.ticks target then some (waiting s []) else some (woken s [] [])
    sleep_serving h target (r ∷ later) s =
        let one = serve h r s in
        let rest = one.0 >>= λ s'. sleep_serving h target later s' in
        if leb s.ticks target
        then (rest >>= λ w. some (sending one.1 w))
        else some (woken s [] (r ∷ later))

    pub sleep_requests : Handlers → ℕ → ℕ → List (ℕ × ℕ) → Running → Option Sleeping
    sleep_requests h clocks_per_second ms rs s =
        sleep_serving h (target_ticks s.ticks clocks_per_second ms) rs s
