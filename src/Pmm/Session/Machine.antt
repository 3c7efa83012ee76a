-- ===== src/Pmm/Session/Machine.antt =====
-- Test data for `init_pmm` (lumos/arch/i386/pmm.c): a machine with 639 KiB from address 0 on, a
-- reserved section, and 2 MiB from 1 MiB on, where the kernel takes the first 64 KiB.
use osd.Base.{ℕ, Memory, IsWords, [], ◌∷◌, List}
use osd.Base.{inl, inr, refl, arith, ◌==◌, if◌then◌else◌}
use osd.Pmm.Init.Place.{Section, IsSection}
use osd.Pmm.Init.Layout.{Entry}
use osd.Pmm.Init.Booted.{IsBootable}

abbrev pub offset : ℕ
offset = 0xC0000000

abbrev pub kernel_start : ℕ
kernel_start = 0xC0100000

abbrev pub kernel_end : ℕ
kernel_end = 0xC0110000

-- The multiboot structure stands at 0x9000 above the offset, and its map of three entries at 0x9100.
abbrev pub boot_info : ℕ
boot_info = 0xC0009000

abbrev pub machine : Memory
machine a =
    if a == 0xC0009000
    then 0x40
    else if a == 0xC000902C
    then 72
    else if a == 0xC0009030
    then 0x9100
    else if a == 0xC0009100
    then 20
    else if a == 0xC000910C
    then 0x9FC00
    else if a == 0xC0009114
    then 1
    else if a == 0xC0009118
    then 20
    else if a == 0xC000911C
    then 0x9FC00
    else if a == 0xC0009124
    then 0x400
    else if a == 0xC000912C
    then 2
    else if a == 0xC0009130
    then 20
    else if a == 0xC0009134
    then 0x100000
    else if a == 0xC000913C
    then 0x200000
    else if a == 0xC0009144
    then 1
    else 0

machine-IsWords : IsWords machine
machine-IsWords a = ground arith

abbrev pub map_entries : List Entry
map_entries =
    record { size = 20; base_low = 0; base_high = 0; length_low = 0x9FC00; kind = 1 }
    ∷ record { size = 20; base_low = 0x9FC00; base_high = 0; length_low = 0x400; kind = 2 }
    ∷ record { size = 20; base_low = 0x100000; base_high = 0; length_low = 0x200000; kind = 1 }
    ∷ []

abbrev pub low_memory : Section
low_memory = record { base = 0; size = 0x9FC00 }

abbrev pub high_memory : Section
high_memory = record { base = 0x100000; size = 0x200000 }

low_memory-IsSection : IsSection low_memory
low_memory-IsSection = record { some_block = omega arith; within_4g = omega arith }

high_memory-IsSection : IsSection high_memory
high_memory-IsSection = record { some_block = omega arith; within_4g = omega arith }

pub machine-IsBootable :
    IsBootable kernel_start kernel_end offset machine boot_info map_entries
      (low_memory ∷ high_memory ∷ [])
machine-IsBootable = record {
  usable = refl;
  words = machine-IsWords;
  has_map = omega arith;
  low = omega arith;
  order = omega arith;
  room = omega arith;
  apart = omega arith;
  entries = omega arith;
  sections = (low_memory-IsSection, (high_memory-IsSection, tt));
  clear = (inr (inl (omega arith)), (inr (inr (omega arith)), tt));
}
