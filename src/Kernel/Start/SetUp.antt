-- ===== src/Kernel/Start/SetUp.antt =====
-- The initialisers that `kernel_main` of lumos/kernel/kernel.c calls before `init_pmm`.
use osd.Base.{ℕ, ◌-◌, ◌^◌, ◌<◌, bit_and, ltb, if◌then◌else◌, Memory, List, [], ◌∷◌, ◌++◌}
use osd.Base.{codes, some, ◌≡◌, ◌≢◌, refl, arith}
use osd.Tty.{Terminal, terminal_init, terminal_write}
use osd.Libc.Format.Literal.{only}
use osd.Libc.Format.Sinks.{printf-Renders}
use osd.Gdt.{gdt_init}
use osd.Idt.{idt_init, pic_master_data_port, pic_slave_data_port}
use osd.Timer.{init_timer}
use osd.Com.{init_com1}
use osd.Idt.Vectors.{handler_address, handler_address-idt_init}
use osd.Isr.{register_interrupt_handler}
use osd.Keyboard.{op_buf_status}
use osd.Keyboard.Init.{AllWaiting, reads_of, init_keyboard_lem}
use osd.Kernel.{Image, Machine, Found, initialised}
use osd.Libc.Format.{Line}

-- The line that is printed before the memory manager starts.
abbrev pub banner : List ℕ
banner = codes "basic initializations complete. starting physical memory manager\n"

-- The stubs have 32-bit addresses, and the keyboard controller has some bytes left and then none.
pub record IsReady (image : Image) (f : Found) : Type 0 where
  pub waiting : List (ℕ × ℕ)
  pub status : ℕ
  pub later : List ℕ
  pub reads : f.reads ≡ reads_of waiting (status ∷ later)
  pub all_waiting : AllWaiting waiting
  pub no_more : bit_and status op_buf_status ≢ 1
  pub isr_below : (k : ℕ) → image.isr k < 2 ^ 32
  pub irq_below : (k : ℕ) → image.irq k < 2 ^ 32

-- The bytes that are sent before the memory manager starts.
abbrev pub early_bytes : Image → Found → List (ℕ × ℕ)
early_bytes image f =
    (idt_init image.isr image.irq image.idt).outs
    ++ (init_timer 50
        ++ (((pic_master_data_port, 0xFC) ∷ (pic_slave_data_port, 0xFF) ∷ []) ++ init_com1 f.echo))

-- The parts are set up: each of the 48 vectors leads to its stub, the requests of the timer and the
-- keyboard to their handlers, and the screen shows the line alone.
pub record IsWired (image : Image) (f : Found) (k : Machine) : Type 0 where
  pub vectors :
      (v : ℕ)
      → v < 48
      → handler_address (k.idt.table v) ≡ (if ltb v 32 then image.isr v else image.irq (v - 32))
  pub tick_handler : k.handlers 32 ≡ image.timer_tick
  pub key_handler : k.handlers 33 ≡ image.keyboard_handler
  pub other_handlers : (v : ℕ) → v ≢ 32 → v ≢ 33 → k.handlers v ≡ f.handlers v
  pub frequency : k.clocks_per_second ≡ 50
  pub keys_up : k.keyboard.status ≡ 0

module _ (fuel : ℕ) (unknown : Memory) (image : Image) (f : Found) (ready : IsReady image f) where
  pub record Initialised : Type 0 where
    pub machine : Machine
    pub returns : initialised fuel unknown image f ≡ some machine
    pub wired : IsWired image f machine
    pub screen : machine.terminal ≡ terminal_write (terminal_init f.screen) banner
    pub keys : machine.keyboard ≡ record f.keyboard { status = 0 }
    pub memory : machine.memory ≡ f.memory
    pub line : machine.line ≡ record { reads = f.line_reads; sent = early_bytes image f }

  set_up : Machine
  set_up =
      let idt = idt_init image.isr image.irq image.idt in
      record {
        terminal = terminal_write (terminal_init f.screen) banner;
        gdt = gdt_init image.tss image.gdt;
        idt = idt;
        handlers =
            register_interrupt_handler 33 image.keyboard_handler
              (register_interrupt_handler 32 image.timer_tick f.handlers);
        clocks_per_second = 50;
        keyboard = record f.keyboard { status = 0 };
        line = record { reads = f.line_reads; sent = early_bytes image f };
        memory = f.memory;
      }

  pub initialised-Initialised : Initialised
  unfolding set_up initialised register_interrupt_handler
  initialised-Initialised =
      let at_keys =
        init_keyboard_lem image.keyboard_handler
          (register_interrupt_handler 32 image.timer_tick f.handlers) f.keyboard ready.waiting
          ready.status ready.later ready.all_waiting ready.no_more in
      let line =
        printf-Renders fuel unknown (terminal_init f.screen) banner banner [] (only banner refl)
          (omega arith) in
      record {
        machine = set_up;
        returns = rw (ready.reads, at_keys, line) refl;
        wired = record {
          vectors = λ v lt.
              handler_address-idt_init image.isr image.irq image.idt v ready.isr_below
                ready.irq_below lt;
          tick_handler = refl;
          key_handler = refl;
          other_handlers = λ v a b. ground arith;
          frequency = refl;
          keys_up = refl;
        };
        screen = refl;
        keys = refl;
        memory = refl;
        line = refl;
      }

-- Neither the screen nor the memory nor the serial line matters to the set-up.
pub rewired :
    {image : Image} {f : Found} (k : Machine) (t : Terminal) (m : Memory) (l : Line)
    → IsWired image f k
    → IsWired image f (record k { terminal = t; memory = m; line = l })
rewired k t m l w = record {
  vectors = w.vectors;
  tick_handler = w.tick_handler;
  key_handler = w.key_handler;
  other_handlers = w.other_handlers;
  frequency = w.frequency;
  keys_up = w.keys_up;
}
