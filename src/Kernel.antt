-- ===== src/Kernel.antt =====
-- `kernel_main` of lumos/kernel/kernel.c, and `abort` of libc/stdlib/abort.c. Interrupts during the
-- start are not part of the model.
pub mod Blocks
pub mod Start
pub mod Requests
mod Sample
mod Examples
use osd.Base.{
  ℕ, ◌+◌, ◌-◌, ◌*◌, ◌%◌, ◌^◌, bit_and, bit_or, not32, shl, u32, Memory, store, List, [], ◌++◌,
  codes,
}
use osd.Base.{Option, some, ◌>>=◌, Bool, leb, ltb, ◌&&◌, if◌then◌else◌}
use osd.Tty.{Terminal, terminal_init}
use osd.Libc.Format.{printf, Line}
use osd.Gdt.{Gdt, gdt_init}
use osd.Idt.{Idt, idt_init}
use osd.Isr.{Handlers, register_interrupt_handler, isr_handler}
use osd.Timer.{init_timer}
use osd.Keyboard.{Keyboard, Setup, init_keyboard}
use osd.Com.{init_com1}
use osd.Pmm.Init.{Boot, aborted, ready}
use osd.Pmm.Logged.{pmm_alloc_logged, pmm_free_logged, init_pmm_logged}

-- The addresses that the linker gives: the stubs, the handlers, the tables, and its own symbols.
pub record Image : Type 0 where
  pub isr : ℕ → ℕ
  pub irq : ℕ → ℕ
  pub timer_tick : ℕ
  pub keyboard_handler : ℕ
  pub tss : ℕ
  pub gdt : ℕ
  pub idt : ℕ
  pub kernel_start : ℕ
  pub kernel_end : ℕ
  pub offset : ℕ

-- The variables of the parts, the memory, and the serial line, with all bytes sent to ports.
pub record Machine : Type 0 where
  pub terminal : Terminal
  pub gdt : Gdt
  pub idt : Idt
  pub handlers : Handlers
  pub clocks_per_second : ℕ
  pub keyboard : Keyboard
  pub line : Line
  pub memory : Memory

-- What the kernel finds at its start: the screen, the handler table, the keyboard's variables, the
-- bytes that the keyboard controller returns, the byte that the loopback test of the serial port
-- returns, what the reads of its line status return, the memory, and the address of the boot loader's structure.
pub record Found : Type 0 where
  pub screen : Memory
  pub handlers : Handlers
  pub keyboard : Keyboard
  pub reads : List ℕ
  pub echo : ℕ
  pub line_reads : List ℕ
  pub memory : Memory
  pub boot_info : ℕ

-- How the function ends: halted in `abort` or in the handler of an exception, or in its own loop.
pub data Outcome : Type 0 where
  panicked : Terminal → Outcome
  faulted : Machine → Outcome
  idle : Machine → Outcome

-- The pages that boot.S leaves mapped: 4 MiB from `VIRTUAL_KERNEL_OFFSET` on.
abbrev pub is_mapped : ℕ → Bool
is_mapped a = leb 0xC0000000 a && ltb a 0xC0400000

-- A byte stored at `a`, in the word that holds it.
pub store_byte : Memory → ℕ → ℕ → Memory
store_byte m a c =
    let place = 8 * (a % 4) in
    let word = m (a - a % 4) in
    store m (a - a % 4) (bit_or (bit_and word (not32 (u32 (shl 0xFF place)))) (u32 (shl c place)))

module _ (fuel : ℕ) (unknown : Memory) where
  pub abort : Terminal → Option Outcome
  abort t = printf fuel unknown t (codes "kernel: panic: abort()\n") [] >>= λ r. some (panicked r.0)

  -- The stores of `*u = 'c'`; where the page is not mapped, the processor raises exception 14, a page
  -- fault, with an error code and the address of the instruction.
  pub write_block : ℕ → ℕ → Machine → ℕ → Option Outcome
  write_block error_code eip k u =
      if is_mapped u
      then some (idle (record k { memory = store_byte k.memory u b'c' }))
      else (isr_handler fuel unknown k.terminal 14 error_code eip >>= λ t.
          some (faulted (record k { terminal = t })))

  -- The calls after `init_pmm`: the address that the second allocation returns, and the memory.
  pub two_calls : ℕ → Memory → Line → Option ((ℕ × Memory) × Line)
  two_calls kernel_end m l = do
    t ← pmm_alloc_logged fuel unknown m kernel_end l
    u ← pmm_alloc_logged fuel unknown t.0.1 kernel_end t.1
    freed ← pmm_free_logged fuel unknown u.0.1 kernel_end t.0.0 u.1
    some ((u.0.0, freed.0), freed.1)

  pub use_blocks : ℕ → ℕ → Image → Machine → Option Outcome
  use_blocks error_code eip image k = do
    r ← two_calls image.kernel_end k.memory k.line
    write_block error_code eip (record k { memory = r.0.1; line = r.1 }) r.0.0

  pub after_init : ℕ → ℕ → Image → Machine → Boot → Option Outcome
  after_init error_code eip image k aborted = abort k.terminal
  after_init error_code eip image k (ready m) =
      use_blocks error_code eip image (record k { memory = m })

  -- What the calls before `init_pmm` leave, with the line that they print last.
  pub initialised : Image → Found → Option Machine
  initialised image f =
      let timed = register_interrupt_handler 32 image.timer_tick f.handlers in
      let idt = idt_init image.isr image.irq image.idt in
      init_keyboard image.keyboard_handler timed f.keyboard f.reads >>= λ k.
      printf fuel unknown (terminal_init f.screen)
        (codes "basic initializations complete. starting physical memory manager\n") []
      >>= λ r. some (record {
        terminal = r.0;
        gdt = gdt_init image.tss image.gdt;
        idt = idt;
        handlers = k.handlers;
        clocks_per_second = 50;
        keyboard = k.keyboard;
        line = record {
          reads = f.line_reads;
          sent = idt.outs ++ (init_timer 50 ++ (k.outs ++ init_com1 f.echo));
        };
        memory = f.memory;
      })

  -- `error_code` and `eip` are what the processor would push at a fault of the last statement.
  pub kernel_main : ℕ → ℕ → Image → Found → Option Outcome
  kernel_main error_code eip image f = do
    k ← initialised image f
    boot ←
        init_pmm_logged fuel unknown image.kernel_start image.kernel_end image.offset k.memory
          f.boot_info k.line
    after_init error_code eip image (record k { line = boot.1 }) boot.0
