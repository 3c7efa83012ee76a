-- ===== src/Kernel/Sample.antt =====
-- A machine on which the examples run `kernel_main` of lumos/kernel/kernel.c.
use osd.Base.{ℕ, ◌+◌, ◌*◌, ◌%◌, Memory, [], ◌∷◌, refl, arith}
use osd.Keyboard.{Keyboard}
use osd.Com.Log.{ready_reads}
use osd.Kernel.{Image, Found}
use osd.Kernel.Start.{IsReady}
use osd.Pmm.Session.Machine.{offset, kernel_start, kernel_end, boot_info}

abbrev pub unknown : Memory
unknown a = 7

abbrev pub image : Image
image = record {
  isr = λ k. 0xC0100000 + (k % 48) * 16;
  irq = λ k. 0xC0101000 + (k % 48) * 16;
  timer_tick = 0xC0102000;
  keyboard_handler = 0xC0103000;
  tss = 0xC0108000;
  gdt = 0xC0108100;
  idt = 0xC0108200;
  kernel_start = kernel_start;
  kernel_end = kernel_end;
  offset = offset;
}

abbrev pub keys : Keyboard
keys = record { scancode = 0; last_scancode = 0; status = 0 }

-- The keyboard controller has one byte left, and the serial line is ready at the next `n` reads; the
-- memory is `m`.
abbrev pub found : ℕ → Memory → Found
found n m = record {
  screen = unknown;
  handlers = λ v. 0;
  keyboard = keys;
  reads = 0x1D ∷ 0x9C ∷ 0x1C ∷ [];
  echo = 0x55;
  line_reads = ready_reads n;
  memory = m;
  boot_info = boot_info;
}

pub found-IsReady : (n : ℕ) (m : Memory) → IsReady image (found n m)
found-IsReady n m = record {
  waiting = (0x1D, 0x9C) ∷ [];
  status = 0x1C;
  later = [];
  reads = refl;
  all_waiting = (refl, tt);
  no_more = omega arith;
  isr_below = λ k. omega arith;
  irq_below = λ k. omega arith;
}

-- No flag says that there is a memory map.
abbrev pub no_map : Memory
no_map a = 0
