-- ===== src/Kernel/Examples.antt =====
-- Instances of the theorems on the start of the kernel and its messages.
use osd.Base.{length, ℕ, ◌^◌, List, [], ◌∷◌, ◌++◌, codes, some, ◌≡◌, inl, refl, arith}
use osd.Tty.{terminal_init, terminal_write}
use osd.Isr.{isr_handler, register_interrupt_handler}
use osd.Isr.Exceptions.{Reported, isr_handler-Reported}
use osd.Keyboard.{init_keyboard}
use osd.Com.Log.{count_ready-ready_reads}
use osd.Keyboard.Init.{init_keyboard_lem}
use osd.Idt.{pic_master_data_port, pic_slave_data_port}
use osd.Kernel.{Found, panicked, kernel_main}
use osd.Kernel.Start.{Faults, banner, start_text, kernel_main-Faults, kernel_main-panicked}
use osd.Pmm.Session.Machine.{
  boot_info, machine, map_entries, low_memory, high_memory, machine-IsBootable,
}
use osd.Kernel.Sample.{unknown, image, keys, found, found-IsReady, no_map}

abbrev log_text : List ℕ
log_text = start_text (2 ^ 33) unknown image machine boot_info (0xC0110034 ∷ [])

abbrev whole : Found
whole = found (length log_text) machine

kernel_main-Faults_example :
    Faults
      (2 ^ 33)
      unknown
      image
      whole
      2
      0xC0100123
      log_text
      (kernel_main (2 ^ 33) unknown 2 0xC0100123 image whole)
kernel_main-Faults_example =
    kernel_main-Faults (2 ^ 33) 2 0xC0100123 unknown image whole (omega arith) (omega arith)
      (omega arith) (found-IsReady (length log_text) machine) map_entries low_memory
      (high_memory ∷ []) machine-IsBootable ((inl (omega arith), tt), (tt, tt))
      (omega arith, (omega arith, tt)) (omega arith) (omega arith)
      (omega (arith, count_ready-ready_reads (length log_text)))

kernel_main-panicked_example :
    kernel_main (2 ^ 33) unknown 2 0xC0100123 image (found 100 no_map)
    ≡ some (
        panicked
          (terminal_write (terminal_init unknown) (banner ++ codes "kernel: panic: abort()\n")))
kernel_main-panicked_example =
    kernel_main-panicked (2 ^ 33) 2 0xC0100123 unknown image (found 100 no_map) (omega arith)
      (omega arith) (omega arith) (found-IsReady 100 no_map) refl
      (omega (arith, count_ready-ready_reads 100))

-- A page fault of a store by the kernel.
isr_handler-Reported_example :
    Reported
      (2 ^ 33)
      unknown
      (terminal_init unknown)
      14
      2
      0xC0100123
      (isr_handler (2 ^ 33) unknown (terminal_init unknown) 14 2 0xC0100123)
isr_handler-Reported_example =
    isr_handler-Reported (2 ^ 33) unknown (terminal_init unknown) 14 2 0xC0100123 (omega arith)
      (omega arith) (omega arith) (omega arith)

init_keyboard_lem_example :
    init_keyboard 0xC0103000 (λ v. 0) keys (0x1D ∷ 0x9C ∷ 0x1C ∷ [])
    ≡ some (record {
      handlers = register_interrupt_handler 33 0xC0103000 (λ v. 0);
      keyboard = keys;
      reads = [];
      outs = (pic_master_data_port, 0xFC) ∷ (pic_slave_data_port, 0xFF) ∷ [];
    })
init_keyboard_lem_example =
    init_keyboard_lem 0xC0103000 (λ v. 0) keys ((0x1D, 0x9C) ∷ []) 0x1C [] (refl, tt) (omega arith)
