-- ===== src/Kernel/Start.antt =====
-- What the start of the kernel, `kernel_main` of lumos/kernel/kernel.c, leads to.
mod SetUp
mod Text
pub mod Controllers
pub use SetUp.*
pub use Text.*
use osd.Base.{
  ℕ, ◌+◌, ◌-◌, ◌^◌, ◌<◌, bit_and, ltb, if◌then◌else◌, Memory, List, [], ◌∷◌, ◌++◌, length,
}
use osd.Base.{codes, Option, some, false, ◌≡◌, ◌≢◌, inl, inr, refl, arith, ap, sym}
use osd.Tty.{Terminal, terminal_init, terminal_write}
use osd.Tty.Screen.{terminal_write-append}
use osd.Libc.Format.Literal.{only}
use osd.Libc.Format.Sinks.{printf-Renders}
use osd.Gdt.{gdt_init}
use osd.Idt.{idt_init, pic_master_data_port, pic_slave_data_port}
use osd.Timer.{init_timer}
use osd.Com.{init_com1}
use osd.Idt.Vectors.{handler_address, handler_address-idt_init}
use osd.Isr.{register_interrupt_handler}
use osd.Isr.Exceptions.{Reported, isr_handler-Reported}
use osd.Keyboard.{op_buf_status}
use osd.Keyboard.Init.{AllWaiting, reads_of, init_keyboard_lem}
use osd.Pmm.Init.Place.{Section, extent}
use osd.Pmm.Init.Layout.{Entry}
use osd.Pmm.Init.Booted.{IsBootable, places, init_pmm-Booted}
use osd.Pmm.Init.{mbt_flags, mbt_flag_is_mmap}
use osd.Pmm.Session.Start.{AreApart, Booted-IsSound, block-IsAvailable, length-places}
use osd.Kernel.{
  Image, Machine, Found, Outcome, panicked, faulted, is_mapped, abort, write_block, use_blocks,
  after_init, initialised, kernel_main,
}
use mathlib.Core.Path.{subst}
use osd.Com.Log.{count_ready}
use osd.Libc.Format.{Line}
use osd.Pmm.Init.{Scan, Boot, ready, scan_sections, init_pmm}
use osd.Pmm.Init.Layout.{total}
use osd.Pmm.Print.Sent.{bytes, bytes-append}
use osd.Pmm.Print.Zones.{AllShort}
use osd.Pmm.Logged.Start.{
  scan_limit, scan_start, init_text, init_pmm_logged-Started, init_pmm_logged-aborted,
}
use osd.Base.{none, length-append, append_assoc, ◌≤◌, ◌∙◌}
use osd.Kernel.Blocks.{two_calls-Logs, calls_text, AllBelow, available_below, two_blocks}

-- How the start ends: the kernel's parts are set up, and the processor is halted in the handler of the
-- page fault of the last statement, which has been reported; the serial line has sent the text.
pub record Faults (fuel : ℕ) (unknown : Memory) (image : Image) (f : Found) (error_code eip : ℕ)
    (text : List ℕ) (r : Option Outcome) : Type 0 where
  pub machine : Machine
  pub returns : r ≡ some (faulted machine)
  pub wired : IsWired image f machine
  pub report :
      Reported fuel unknown
        (terminal_write (terminal_init f.screen) banner)
        14
        error_code
        eip
        (some machine.terminal)
  pub sent : machine.line.sent ≡ early_bytes image f ++ bytes text

places-AllShort : (p : ℕ) (ss : List Section) → p + total ss < 2 ^ 32 → AllShort (places p ss)
places-AllShort p [] h = tt
places-AllShort p (s ∷ ss) h = (omega arith, places-AllShort (p + extent s) ss (omega arith))

module _ (fuel error_code eip : ℕ) (unknown : Memory) (image : Image) (f : Found)
    (enough : 2 ^ 32 < fuel) (error_fits : error_code < 2 ^ 32) (eip_fits : eip < 2 ^ 32) where
  -- A store below the kernel's half ends in the handler.
  write_block-Faults :
      (k : Machine) (u : ℕ) (text : List ℕ)
      → u < 0xC0000000
      → IsWired image f k
      → k.terminal ≡ terminal_write (terminal_init f.screen) banner
      → k.line.sent ≡ early_bytes image f ++ bytes text
      → Faults fuel unknown image f error_code eip text
          (write_block fuel unknown error_code eip k u)
  unfolding write_block
  write_block-Faults k u text low w screen sent =
      let off : is_mapped u ≡ false = ground arith in
      let t =
        isr_handler-Reported fuel unknown k.terminal 14 error_code eip (omega arith) error_fits
          eip_fits enough in
      rw (off, t.returns)
        (record {
          machine = record k { terminal = _ };
          returns = refl;
          wired = rewired k _ k.memory k.line w;
          sent = sent;
          report = rw (sym screen) (record {
            gate = t.gate;
            message = t.message;
            listed = t.listed;
            error = t.error;
            address = t.address;
            returns = refl;
          });
        })

  abbrev no_map_text : List ℕ
  no_map_text = codes "[pmm]: init_pmm()\n" ++ codes "[PMM] : No memory map available\n"

  module _ (set_up : IsReady image f) where
    -- Where the stubs have 32-bit addresses, the keyboard controller runs out of bytes, the serial line
    -- is ready often enough for two lines, the fuel is above 2 ^ 32, and the boot loader passes no
    -- memory map, the start ends in `abort`: the screen shows the line that all parts are set up, and
    -- the panic behind it.
    pub kernel_main-panicked :
        bit_and (mbt_flags f.memory f.boot_info) mbt_flag_is_mmap ≡ 0
        → length no_map_text ≤ count_ready f.line_reads
        → kernel_main fuel unknown error_code eip image f
          ≡ some (
              panicked (
                terminal_write
                  (terminal_init f.screen)
                  (banner ++ codes "kernel: panic: abort()\n")))
    unfolding kernel_main after_init abort
    kernel_main-panicked no_map often =
        let i = initialised-Initialised fuel unknown image f set_up in
        let panic = codes "kernel: panic: abort()\n" in
        let stop =
          init_pmm_logged-aborted fuel unknown image.kernel_start image.kernel_end image.offset
            f.memory f.boot_info enough no_map
            (record { reads = f.line_reads; sent = early_bytes image f }) often in
        let line =
          printf-Renders fuel unknown (terminal_write (terminal_init f.screen) banner) panic panic
            [] (only panic refl) (omega arith) in
        rw (i.returns, i.memory, i.line, stop.returns, i.screen, line)
          (ap (λ (t : Terminal). some (panicked t))
            (sym (terminal_write-append (terminal_init f.screen) banner panic)))

    -- On a bootable machine whose usable sections do not overlap and end below 3 GiB, where the
    -- stubs have 32-bit addresses, the keyboard controller runs out of bytes, the serial line is ready
    -- at least once for each character of the log, and the fuel is enough, the start comes to an end:
    -- every part is set up, the two allocations and the return of the first all return, and the log
    -- has been sent in full, but the store to the second address is a page fault, whose report is
    -- the last that the screen shows before the processor halts.
    pub kernel_main-Faults :
        (es : List Entry) (s : Section) (ss : List Section)
        → IsBootable image.kernel_start image.kernel_end image.offset f.memory f.boot_info es
            (s ∷ ss)
        → AreApart (s ∷ ss)
        → AllBelow (s ∷ ss)
        → length es < fuel
        → length (s ∷ ss) < fuel
        → let text =
            start_text fuel unknown image f.memory f.boot_info
              (places (image.kernel_end + extent s) ss) in
          length text ≤ count_ready f.line_reads
          → Faults fuel unknown image f error_code eip text
              (kernel_main fuel unknown error_code eip image f)
    unfolding kernel_main after_init use_blocks
    kernel_main-Faults es s ss boot apart below few zones often =
        let p = image.kernel_end in
        let zs = places (p + extent s) ss in
        let i = initialised-Initialised fuel unknown image f set_up in
        let k =
          init_pmm-Booted fuel image.kernel_start p image.offset f.memory f.boot_info es s ss boot
            (omega arith) few in
        let sound =
          Booted-IsSound fuel image.kernel_start p image.offset f.memory f.boot_info es s ss boot k
            apart in
        let count : length (p ∷ zs) < fuel = omega (arith, length-places (p + extent s) ss) in
        let start =
          init_pmm_logged-Started fuel unknown image.kernel_start p image.offset f.memory
            f.boot_info k.mem (p ∷ zs) enough k.returns k.zones k.words
            (places-AllShort p (s ∷ ss) (omega (arith, boot.room))) count in
        let b = two_blocks fuel (omega arith) k.mem p zs count sound in
        let calls = two_calls-Logs fuel unknown k.mem p zs enough sound count b in
        let low : b.u < 0xC0000000 = elim b.from [
          | inl null ↦ omega arith
          | inr free ↦ available_below _ (s ∷ ss) b.u below (
              block-IsAvailable _ k.mem p free.zone free.block b.u (s ∷ ss) k.laid boot.sections
                free.listed free.here free.clear)
        ] in
        let first =
          init_text fuel unknown image.kernel_start p image.offset f.memory f.boot_info
            start.scanned k.mem (p ∷ zs) in
        let second = calls_text fuel unknown k.mem p zs in
        let size = length-append first second in
        let same =
          start_text_lem fuel unknown image f.memory f.boot_info zs start.scanned k.mem start.scan
            k.returns in
        let h : length (first ++ second) ≤ count_ready f.line_reads =
          subst (λ t. length t ≤ count_ready f.line_reads) same often in
        let early : Line = record { reads = f.line_reads; sent = early_bytes image f } in
        let x = start.logs early (omega (arith, size)) in
        let booted : Line = record { reads = x.later; sent = early.sent ++ bytes first } in
        let y = calls.1 booted (omega (arith, size, x.used)) in
        let last : Line = record { reads = y.later; sent = booted.sent ++ bytes second } in
        subst
          (λ t.
            Faults fuel unknown image f error_code eip t
              (kernel_main fuel unknown error_code eip image f))
          (sym same)
          (rw (i.returns, i.memory, i.line, x.returns, y.returns)
            (write_block-Faults (record i.machine { memory = calls.0; line = last }) b.u
              (first ++ second) low (rewired i.machine i.machine.terminal calls.0 last i.wired)
              i.screen
              (append_assoc early.sent (bytes first) (bytes second)
                ∙ ap (λ t. early.sent ++ t) (sym (bytes-append first second)))))
