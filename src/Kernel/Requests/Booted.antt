-- ===== src/Kernel/Requests/Booted.antt =====
-- The kernel that `kernel_main` of lumos/kernel/kernel.c has set up answers interrupt requests.
use osd.Base.{
  ℕ, ◌+◌, ◌-◌, ◌*◌, ◌/◌, ◌^◌, ◌<◌, ltb, if◌then◌else◌, List, Memory, Option, some, refl, arith,
}
use osd.Base.{◌≡◌, ◌≢◌, ◌⊎◌, ◌∙◌, false, not, ◌==◌, ap}
use osd.Tty.Types.{Cells, terminal_init-HasTypes, terminal_write-HasTypes}
use osd.Idt.Vectors.{handler_address}
use osd.Idt.Pic.{Pics, pic_writes, is_enabled, vector_of, ready_pics}
use osd.Libc.Format.{Line}
use osd.Kernel.Start.Controllers.{pic_writes-early_bytes, enabled_lem, vector_lem}
use native.Mathlib.Decide.{ℕ_discrete}
use osd.Isr.{Handlers, irq_vector}
use osd.Keyboard.Types.{HasBytes}
use osd.Kernel.{Image, Machine, Found, initialised}
use osd.Kernel.Start.{IsReady, Initialised, initialised-Initialised, banner}
use osd.Kernel.Requests.{Running, serve_all, sleep_requests}
use osd.Kernel.Requests.Interleaved.{IsServed}
use osd.Kernel.Requests.Served.{AllRequests, Others, Served, serve_all-Served}
use osd.Kernel.Requests.Types.{AllTypes, Served-AllTypes}
use osd.Kernel.Requests.Sleep.{Waits, Wakes, sleep_requests-ends}

-- The kernel's variables before its start: no handler is registered, and the keyboard's variables and
-- the cells of the screen have values of their types. The two handlers have addresses that differ and
-- are not null.
pub record IsUntouched (image : Image) (f : Found) : Type 0 where
  pub no_handlers : (v : ℕ) → f.handlers v ≡ 0
  pub keyboard : HasBytes f.keyboard
  pub cells : Cells f.screen
  pub tick_real : image.timer_tick ≢ 0
  pub key_real : image.keyboard_handler ≢ 0
  pub differ : image.keyboard_handler ≢ image.timer_tick

-- The variables that the handlers change, before the first tick.
abbrev pub running : Machine → Running
running k = record { terminal = k.terminal; keyboard = k.keyboard; ticks = 0 }

module _ (fuel : ℕ) (unknown past : Memory) (image : Image) where
  -- The set-up has returned a machine that answers requests.
  pub record Responds (o : Option Machine) : Type 0 where
    pub machine : Machine
    pub returns : o ≡ some machine
    pub opened :
        (p : Pics) (n : ℕ)
        → n < 16
        → let after = pic_writes p machine.line.sent in
          (is_enabled after n ≡ not (machine.handlers (irq_vector n) == 0))
          × (vector_of after n ≡ irq_vector n)
    pub gates : (n : ℕ) → n < 16 → handler_address (machine.idt.table (irq_vector n)) ≡ image.irq n
    pub serves :
        (rs : List (ℕ × ℕ))
        → AllRequests rs
        → (v : Served fuel unknown past rs
            (running machine)
            (serve_all fuel unknown past image machine.handlers rs (running machine)))
          × AllTypes v.after
    pub sleeps :
        (ms : ℕ) (rs : List (ℕ × ℕ))
        → ms * 50 < 2 ^ 32
        → AllRequests rs
        → let s = running machine in
          let o =
            sleep_requests fuel unknown past image machine.handlers machine.clocks_per_second ms rs
              s in
          Waits fuel unknown past image machine.handlers (ms / 20) rs s o
          ⊎ Wakes fuel unknown past image machine.handlers (ms / 20) rs s o

  registered :
      (h : Handlers) → IsServed image h → Others h → (n : ℕ) → ltb n 2 ≡ not (h (irq_vector n) == 0)
  registered h w others n = elim (ℕ_discrete n 0) [
    | yes tick ↦ rw (tick, w.tick_handler) (ground (arith, w.tick_real))
    | no no_tick ↦ elim (ℕ_discrete n 1) [
      | yes key ↦ rw (key, w.key_handler) (ground (arith, w.key_real))
      | no no_key ↦ rw (others (irq_vector n) (omega arith) (omega arith)) (ground arith)
    ]
  ]

  module _ (f : Found) (ready : IsReady image f) (u : IsUntouched image f) where
    running-AllTypes : (i : Initialised fuel unknown image f ready) → AllTypes (running i.machine)
    running-AllTypes i = record {
      terminal =
          rw i.screen (terminal_write-HasTypes _ banner (terminal_init-HasTypes f.screen u.cells));
      keyboard = rw i.keys (record {
        scancode = u.keyboard.scancode;
        last_scancode = u.keyboard.last_scancode;
        status = omega arith;
      });
      ticks_fit = omega arith;
    }

    initialised-IsServed :
        (i : Initialised fuel unknown image f ready) → IsServed image i.machine.handlers
    initialised-IsServed i = record {
      tick_handler = i.wired.tick_handler;
      key_handler = i.wired.key_handler;
      tick_real = u.tick_real;
      key_real = u.key_real;
      differ = u.differ;
    }

    -- Where the stubs have 32-bit addresses, the keyboard controller runs out of bytes, no handler is
    -- registered before and the variables have values of their C types, the two handlers have addresses
    -- that differ and are not null, and with fuel above 2 ^ 32, the set-up returns, and then: the
    -- interrupt controllers, whatever they did before, let through exactly the requests with a handler;
    -- each of the sixteen requests has a vector whose gate is that of its own stub; any requests, in any
    -- order and with any bytes from the keyboard, are all served and acknowledged, and leave every
    -- variable within its C type; and `sleep` of less than 2 ^ 32 / 50 milliseconds returns at the tick
    -- after one for every whole 20 milliseconds, and not before.
    pub initialised-Responds : 2 ^ 32 < fuel → Responds (initialised fuel unknown image f)
    initialised-Responds enough =
        let i = initialised-Initialised fuel unknown image f ready in
        let k = i.machine in
        let s = running k in
        let w = initialised-IsServed i in
        let others : Others k.handlers = λ v a b. i.wired.other_handlers v a b ∙ u.no_handlers v in
        record {
          machine = k;
          returns = i.returns;
          opened = λ p n lt.
              let sent : pic_writes p k.line.sent ≡ ready_pics 0xFC 0xFF =
                ap (λ (l : Line). pic_writes p l.sent) i.line ∙ pic_writes-early_bytes p image f in
              rw sent
                (enabled_lem n lt ∙ registered k.handlers w others n, vector_lem 0xFC 0xFF n lt);
          gates = λ n lt. i.wired.vectors (irq_vector n) (omega arith) ∙ gate n;
          serves = λ rs all.
              let v =
                serve_all-Served fuel unknown past image k.handlers w others enough rs s all
                  (omega arith) in
              (v, Served-AllTypes fuel unknown past rs s all (running-AllTypes i) v);
          sleeps = λ ms rs small all.
              let time : 0 + ms * 50 / 1000 ≡ ms / 20 = omega arith in
              rw (i.wired.frequency, ← time)
                (sleep_requests-ends fuel unknown past image k.handlers w others enough 50 ms rs s
                  all small (omega arith));
        }
      where
        gate :
            (n : ℕ)
            → (if ltb (irq_vector n) 32
                then image.isr (irq_vector n)
                else image.irq (irq_vector n - 32))
              ≡ image.irq n
        gate n =
            let far : ltb (irq_vector n) 32 ≡ false = ground arith in
            let back : irq_vector n - 32 ≡ n = omega arith in rw (far, back) refl
