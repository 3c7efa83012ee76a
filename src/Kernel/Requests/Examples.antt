-- ===== src/Kernel/Requests/Examples.antt =====
-- Instances of the theorems on interrupt requests.
use osd.Base.{ℕ, ◌^◌, List, [], ◌∷◌, some, ◌≡◌, inl, inr, refl, arith, ◌==◌, if◌then◌else◌}
use osd.Tty.{terminal_init, terminal_write}
use osd.Kernel.{initialised}
use osd.Kernel.Requests.{Running, serve_all, sleep_requests}
use osd.Kernel.Requests.Sleep.{Waits, Wakes, sleep_requests-ends}
use osd.Kernel.Requests.Booted.{Responds, initialised-Responds}
use osd.Base.{◌⊎◌}
use osd.Kernel.Requests.Interleaved.{IsServed, type_keys, acknowledged, serve_all-Interleaved}
use osd.Kernel.Requests.Served.{AllRequests, Others, Served, serve_all-Served}
use osd.Kernel.Requests.Types.{AllTypes}
use osd.Tty.Types.{Cells, terminal_init-HasTypes}
use osd.Kernel.Sample.{unknown, image, keys, found, found-IsReady, no_map}

abbrev running : Running
running = record { terminal = terminal_init unknown; keyboard = keys; ticks = 0xFFFFFFFF }

-- Shift, a tick, the key of `a`, and a tick.
abbrev requests : List (ℕ × ℕ)
requests = (1, 0x2A) ∷ (0, 0x2A) ∷ (1, 0x1E) ∷ (0, 0x1E) ∷ []

abbrev handlers : ℕ → ℕ
handlers v = if v == 32 then 0xC0102000 else if v == 33 then 0xC0103000 else 0

handlers-IsServed : IsServed image handlers
handlers-IsServed = record {
  tick_handler = refl;
  key_handler = refl;
  tick_real = omega arith;
  key_real = omega arith;
  differ = omega arith;
}

handlers-Others : Others handlers
handlers-Others v no_tick no_key = ground arith

interleaved_run :
    serve_all 50 unknown unknown image handlers requests running
    ≡ some (
      record {
        terminal =
            terminal_write (terminal_init unknown) (type_keys unknown keys (0x2A ∷ 0x1E ∷ [])).1;
        keyboard = (type_keys unknown keys (0x2A ∷ 0x1E ∷ [])).0;
        ticks = 1;
      },
      acknowledged requests,
    )
interleaved_run =
    serve_all-Interleaved 50 unknown unknown image handlers handlers-IsServed requests running
      (inr refl, (inl refl, (inr refl, (inl refl, tt)))) (omega arith)

-- The same, and a request of the disk, which has no handler.
abbrev with_disk : List (ℕ × ℕ)
with_disk = (1, 0x2A) ∷ (14, 0x2A) ∷ (0, 0x2A) ∷ (1, 0x1E) ∷ []

with_disk-AllRequests : AllRequests with_disk
with_disk-AllRequests = (
  (omega arith, omega arith),
  ((omega arith, omega arith), ((omega arith, omega arith), ((omega arith, omega arith), tt))),
)

serve_all-Served_example :
    Served
      (2 ^ 33)
      unknown
      unknown
      with_disk
      running
      (serve_all (2 ^ 33) unknown unknown image handlers with_disk running)
serve_all-Served_example =
    serve_all-Served (2 ^ 33) unknown unknown image handlers handlers-IsServed handlers-Others
      (omega arith) with_disk running with_disk-AllRequests (omega arith)

unknown-Cells : Cells unknown
unknown-Cells = λ a. omega arith

running-AllTypes : AllTypes running
running-AllTypes = record {
  terminal = terminal_init-HasTypes unknown unknown-Cells;
  keyboard = record { scancode = omega arith; last_scancode = omega arith; status = omega arith };
  ticks_fit = omega arith;
}

abbrev at_zero : Running
at_zero = record running { ticks = 0 }

-- 20 milliseconds are one tick at 50 ticks a second.
sleep_requests-ends_example :
    Waits
      (2 ^ 33)
      unknown
      unknown
      image
      handlers
      1
      with_disk
      at_zero
      (sleep_requests (2 ^ 33) unknown unknown image handlers 50 20 with_disk at_zero)
    ⊎ Wakes
        (2 ^ 33)
        unknown
        unknown
        image
        handlers
        1
        with_disk
        at_zero
        (sleep_requests (2 ^ 33) unknown unknown image handlers 50 20 with_disk at_zero)
sleep_requests-ends_example =
    sleep_requests-ends (2 ^ 33) unknown unknown image handlers handlers-IsServed handlers-Others
      (omega arith) 50 20 with_disk at_zero with_disk-AllRequests (omega arith) (omega arith)

initialised-Responds_example :
    Responds (2 ^ 33) unknown unknown image (initialised (2 ^ 33) unknown image (found 100 no_map))
initialised-Responds_example =
    initialised-Responds (2 ^ 33) unknown unknown image (found 100 no_map)
      (found-IsReady 100 no_map)
      (record {
        no_handlers = λ v. refl;
        keyboard = running-AllTypes.keyboard;
        cells = unknown-Cells;
        tick_real = omega arith;
        key_real = omega arith;
        differ = omega arith;
      })
      (omega arith)
