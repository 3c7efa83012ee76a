-- ===== src/Gdt.antt =====
-- The segment descriptors, lumos/arch/i386/gdt.c and lumos/include/lumos/gdt.h.
pub mod Decode
use osd.Base.{ℕ, ◌-◌, ◌*◌, ◌^◌, u8, u16, shr, bit_and, bit_or, List, [], ◌∷◌}

pub record GdtEntry : Type 0 where
  pub limit_low : ℕ
  pub base_low : ℕ
  pub base_mid : ℕ
  pub type : ℕ
  pub limit_high_flags : ℕ
  pub base_high : ℕ

pub record GdtDescriptor : Type 0 where
  pub limit : ℕ
  pub base_address : ℕ

-- Every field of the entry is written, so its old content does not matter.
pub gdt_create_entry : ℕ → ℕ → ℕ → ℕ → GdtEntry
gdt_create_entry base limit type flags = record {
  base_low = bit_and (u16 base) 0x0000FFFF;
  base_mid = bit_and (u8 (shr base 16)) 0x000000FF;
  base_high = bit_and (u8 (shr base 24)) 0x000000FF;
  limit_low = bit_and (u16 limit) 0x0000FFFF;
  limit_high_flags = bit_or (bit_and (u8 (shr limit 16)) 0x0000000F) flags;
  type = type;
}

-- `sizeof(TSS)` and `sizeof(struct gdtEntry)`
abbrev pub tss_size : ℕ
tss_size = 104

abbrev pub gdt_entry_size : ℕ
gdt_entry_size = 8

pub record Gdt : Type 0 where
  pub entries : List GdtEntry
  pub gdtr : GdtDescriptor
  pub tss_ss0 : ℕ

-- `tss` and `table` are the addresses of `TSS` and `GDT_entries`.
pub gdt_init : ℕ → ℕ → Gdt
gdt_init tss table = record {
  entries =
      gdt_create_entry 0 0 0 0
      ∷ gdt_create_entry 0 0xFFFFFFFF 0x9A 0xC0
      ∷ gdt_create_entry 0 0xFFFFFFFF 0x92 0xC0
      ∷ gdt_create_entry 0 0xFFFFFFFF 0xFA 0xC0
      ∷ gdt_create_entry 0 0xFFFFFFFF 0xF2 0xC0
      ∷ gdt_create_entry tss (tss_size - 1) 0x89 0x10
      ∷ [];
  tss_ss0 = 0x10;
  gdtr = record { limit = 6 * gdt_entry_size - 1; base_address = table };
}
