-- ===== src/Idt/Vectors.antt =====
-- Where the processor goes at each interrupt after lumos/arch/i386/idt.c.
use osd.Base.{ℕ, ◌+◌, ◌-◌, ◌*◌, ◌/◌, ◌%◌, ◌^◌, ◌<◌, for_up, for_up_lem, ltb, leb, ◌&&◌}
use osd.Base.{if◌then◌else◌, ◌≡◌, arith}
use osd.Base.Bits.{bit_and-ones}
use osd.Idt.{
  IdtEntry, IdtTable, idt_create_entry, set_entry, empty_table, idt_init, kernel_code_selector,
}

-- The address of the handler of an entry.
pub handler_address : IdtEntry → ℕ
handler_address e = e.base_low + e.base_high * 2 ^ 16

abbrev pub gate : ℕ → IdtEntry
gate stub = idt_create_entry stub kernel_code_selector 0x8E

pub handler_address-idt_create_entry :
    (base selector type : ℕ)
    → base < 2 ^ 32
    → handler_address (idt_create_entry base selector type) ≡ base
unfolding handler_address idt_create_entry
handler_address-idt_create_entry base selector type h =
    omega (arith, bit_and-ones 16 (base % 2 ^ 16), bit_and-ones 16 (base / 2 ^ 16 % 2 ^ 16))

entries_from :
    (n first : ℕ) (stub : ℕ → ℕ) (t : IdtTable) (v : ℕ)
    → for_up n (λ k x. set_entry (first + k) (gate (stub k)) x) t v
      ≡ (if leb first v && ltb v (first + n) then gate (stub (v - first)) else t v)
unfolding set_entry
entries_from n first stub t v =
    for_up_lem
      (λ k x. x v ≡ (if leb first v && ltb v (first + k) then gate (stub (v - first)) else t v)) n _
      t (ground arith) (λ i x lt h. ground arith)

exceptions :
    (isr : ℕ → ℕ) (v : ℕ)
    → for_up 32 (λ k x. set_entry k (gate (isr k)) x) empty_table v
      ≡ (if ltb v 32 then gate (isr v) else empty_table v)
unfolding set_entry
exceptions isr v =
    for_up_lem (λ k x. x v ≡ (if ltb v k then gate (isr v) else empty_table v)) 32 _ empty_table
      (ground arith) (λ i x lt h. ground arith)

-- Vectors 0 to 31 have the gates of the exception stubs, 32 to 47 those of the interrupt requests 0
-- to 15, and the others are empty.
pub idt_init-table :
    (isr irq : ℕ → ℕ) (at v : ℕ)
    → (idt_init isr irq at).table v
      ≡ (if ltb v 32 then gate (isr v) else if ltb v 48 then gate (irq (v - 32)) else empty_table v)
unfolding idt_init
idt_init-table isr irq at v = ground (
  arith,
  entries_from 16 32 irq (for_up 32 (λ k t. set_entry k (gate (isr k)) t) empty_table) v,
  exceptions isr v,
)

-- Where the stubs have 32-bit addresses, after `idt_init` an exception 0 to 31 goes to its own
-- stub, and an interrupt request 0 to 15 to its stub at vector 32 and up.
pub handler_address-idt_init :
    (isr irq : ℕ → ℕ) (at v : ℕ)
    → ((k : ℕ) → isr k < 2 ^ 32)
    → ((k : ℕ) → irq k < 2 ^ 32)
    → v < 48
    → handler_address ((idt_init isr irq at).table v) ≡ (if ltb v 32 then isr v else irq (v - 32))
handler_address-idt_init isr irq at v hs hq h = ground (
  arith,
  idt_init-table isr irq at v,
  handler_address-idt_create_entry (isr v) kernel_code_selector 0x8E (hs v),
  handler_address-idt_create_entry (irq (v - 32)) kernel_code_selector 0x8E (hq (v - 32)),
)
