-- ===== src/Idt.antt =====
-- The interrupt descriptor table, lumos/arch/i386/idt.c and lumos/include/lumos/idt.h.
pub mod Vectors
pub mod Pic
use osd.Base.{
  ℕ, ◌+◌, ◌-◌, ◌*◌, ◌^◌, u8, u16, shr, bit_and, List, [], ◌∷◌, ◌==◌, if◌then◌else◌, for_up,
}

abbrev pub idt_size : ℕ
idt_size = 256

abbrev pub kernel_code_selector : ℕ
kernel_code_selector = 0x08

abbrev pub pic_master_command_port : ℕ
pic_master_command_port = 0x20

abbrev pub pic_master_data_port : ℕ
pic_master_data_port = 0x21

abbrev pub pic_slave_command_port : ℕ
pic_slave_command_port = 0xA0

abbrev pub pic_slave_data_port : ℕ
pic_slave_data_port = 0xA1

pub record IdtEntry : Type 0 where
  pub base_low : ℕ
  pub segment_selector : ℕ
  pub reserved : ℕ
  pub type : ℕ
  pub base_high : ℕ

pub record IdtDescriptor : Type 0 where
  pub limit : ℕ
  pub base : ℕ

-- The type is given as 16 bits and stored in 8.
pub idt_create_entry : ℕ → ℕ → ℕ → IdtEntry
idt_create_entry base segment_selector type = record {
  base_low = bit_and (u16 base) 0x0000FFFF;
  base_high = bit_and (u16 (shr base 16)) 0x0000FFFF;
  segment_selector = segment_selector;
  type = u8 type;
  reserved = 0;
}

abbrev pub IdtTable : Type 0
IdtTable = ℕ → IdtEntry

pub set_entry : ℕ → IdtEntry → IdtTable → IdtTable
set_entry n e table k = if k == n then e else table k

-- `IDT` before the call, as C initialises it.
pub empty_table : IdtTable
empty_table k = record { base_low = 0; segment_selector = 0; reserved = 0; type = 0; base_high = 0 }

pub record Idt : Type 0 where
  pub outs : List (ℕ × ℕ)
  pub table : IdtTable
  pub idtr : IdtDescriptor

-- What is written to the interrupt controllers, as ports and bytes in order.
pub pic_setup : List (ℕ × ℕ)
pic_setup =
    (pic_master_command_port, 0x11)
    ∷ (pic_slave_command_port, 0x11)
    ∷ (pic_master_data_port, 0x20)
    ∷ (pic_slave_data_port, 0x28)
    ∷ (pic_master_data_port, 0x04)
    ∷ (pic_slave_data_port, 0x02)
    ∷ (pic_master_data_port, 0x01)
    ∷ (pic_slave_data_port, 0x01)
    ∷ (pic_master_data_port, 0xFF)
    ∷ (pic_slave_data_port, 0xFF)
    ∷ []

-- `CREATE_ISR(0)` to `CREATE_ISR(31)`, and `CREATE_IRQ(0, 32)` to `CREATE_IRQ(15, 47)`; `isr` and
-- `irq` are the addresses of the stubs, and `at` that of `IDT`.
unfoldable pub idt_init : (ℕ → ℕ) → (ℕ → ℕ) → ℕ → Idt
idt_init isr irq at =
    let gate = λ (stub : ℕ). idt_create_entry stub kernel_code_selector 0x8E in
    let exceptions = for_up 32 (λ k t. set_entry k (gate (isr k)) t) empty_table in
    record {
      outs = pic_setup;
      table = for_up 16 (λ k t. set_entry (32 + k) (gate (irq k)) t) exceptions;
      idtr = record { limit = u16 (idt_size * 8) - 1; base = at };
    }
