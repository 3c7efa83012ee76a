-- ===== src/Lib.antt =====
-- OSD is a small 32-bit x86 kernel, lumos, with its own C library. This library models the C code of
-- both and proves what it does.
--
-- The program. At start, lumos/kernel/kernel.c calls the initialisers of the parts: the segment
-- descriptors (gdt.c), the interrupt descriptors and the interrupt controller (idt.c), the timer
-- (timer.c), the keyboard (keyboard.c), the serial port (com.c), the terminal (tty.c) and the
-- physical memory manager (pmm.c), all in lumos/arch/i386. An interrupt enters a stub of
-- interrupts.S, which calls irq_handler of isr.c; that calls the handler registered for the vector
-- and acknowledges the interrupt. Text goes through libc/stdio to the terminal or, for the log, to
-- the serial port.
--
-- The files.
-- - Base: words, memories, binary digits, loops, lists. `while` runs a loop on fuel, `for_up` counts.
-- - Pmm: lumos/arch/i386/pmm.c. Pmm/Bitmap has set_bit, unset_bit, test_bit, set_bits and
--   unset_bits; Pmm/Zone the zone structures in memory and the list of them; Pmm/Alloc has pmm_alloc,
--   pmm_alloc2 and pmm_free; Pmm/Init has init_pmm, from the boot loader's memory map to the zones;
--   Pmm/Session the sets of free and held addresses over any calls after that; Pmm/Print the
--   functions that log the zones; Pmm/Logged the functions with their messages to the serial line.
--   The memory is a function from byte addresses to 32-bit words.
-- - Tty: lumos/arch/i386/tty.c and vga.h. A `Terminal` is the row, the column, the colour and the
--   cells; each branch of terminal_putchar is a function. Tty/Types has the C types of all that, and
--   Tty/Page the page of text that the screen shows a part of.
-- - Keyboard: keyboard_handler and init_keyboard of lumos/arch/i386/keyboard.c, with the two key tables. What lies in
--   memory after a table of 128 entries is a parameter, since the code can read it.
-- - Libc: libc/string, libc/stdlib/itoa.c and libc/utils/ceilPowTwo.c, over a memory of bytes.
--   Libc/Format has putchar, printf, puts and logf of libc/stdio, with the terminal and the serial line
--   behind them.
-- - Gdt, Idt: the tables that gdt_init and idt_init build, and the port writes of the second. The
--   decoders there are the processor's reading of a descriptor; Idt/Pic is the interrupt controllers'
--   reading of the bytes that they are sent.
-- - Isr: lumos/arch/i386/isr.c: the handler table, irq_handler, sendEOI and isr_handler with its messages.
-- - Timer: timer_tick, sleep and the set-up of the timer of lumos/arch/i386/timer.c.
-- - Com: lumos/arch/i386/com.c and log of libc/stdio/logf.c, as lists of port writes.
-- - Kernel: kernel_main of lumos/kernel/kernel.c and abort of libc/stdlib/abort.c, over the models of
--   all parts; Kernel/Requests serves interrupt requests with the handlers of the timer and the
--   keyboard, and with the message for the requests that have none, also while sleep waits. Which
--   pages are mapped is read off lumos/arch/i386/boot.S.
-- The modules Examples apply the theorems to concrete states.
--
-- Machine integers are natural numbers with the wrap-around written out: u8, u16 and u32 are the
-- remainders by 2^8, 2^16 and 2^32. A loop whose end depends on the data runs on fuel, and `none`
-- says that the fuel ran out. The theorems name a fuel that is enough, a bound on the number of rounds:
-- above 2^20 + 128 for the loops over a bitmap, since 4 GiB are 2^20 blocks, above the number of zones
-- or map entries, and above 2^32 for the digits of a number. The functions of libc/string that are
-- given a length count down, and need none.
--
-- Not modelled: the assembly (boot.S, crti.S, loadGDT.S, the instructions of ports.h), the linker
-- script, multiboot.h (a third-party header; the fields that pmm.c reads are functions of the memory),
-- and the interrupts that come while kernel_main sets up the parts. Port writes are recorded
-- as pairs of a port and a byte; the interrupts that end a wait, the bytes read from a port, and what
-- the processor pushes at a fault are arguments. The memory of the zones and that of the screen are two
-- memories: that the zones lie in the 4 MiB that boot.S maps, below the screen, is not checked.
pub mod Base
pub mod Pmm
pub mod Tty
pub mod Keyboard
pub mod Libc
pub mod Gdt
pub mod Idt
pub mod Isr
pub mod Timer
pub mod Com
pub mod Kernel
pub mod Examples
