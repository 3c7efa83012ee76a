-- ===== src/Gdt/Decode.antt =====
-- How the processor reads the descriptors of lumos/arch/i386/gdt.c.
use osd.Base.{ℕ, ◌+◌, ◌*◌, ◌/◌, ◌%◌, ◌^◌, ◌<◌}
use osd.Base.{◌≡◌, arith, map, [], ◌∷◌}
use osd.Base.Bits.{bit_and-ones, bit_or-above}
use osd.Gdt.{GdtEntry, gdt_create_entry, gdt_init}

-- The three scattered numbers of a descriptor.
pub record Segment : Type 0 where
  pub base : ℕ
  pub limit : ℕ
  pub flags : ℕ
  pub access : ℕ

pub decode : GdtEntry → Segment
decode e = record {
  base = e.base_low + e.base_mid * 2 ^ 16 + e.base_high * 2 ^ 24;
  limit = e.limit_low + e.limit_high_flags % 16 * 2 ^ 16;
  flags = e.limit_high_flags / 16;
  access = e.type;
}

-- For a 32-bit base and four flags in the high half of their byte, the processor reads back the
-- base, the low 20 bits of the limit, the flags, and the access byte that the entry was made from.
pub decode-gdt_create_entry :
    (base limit access flags : ℕ)
    → base < 2 ^ 32
    → flags < 16
    → decode (gdt_create_entry base limit access (flags * 16))
      ≡ record { base = base; limit = limit % 2 ^ 20; flags = flags; access = access }
unfolding decode gdt_create_entry
decode-gdt_create_entry base limit access flags hb hf =
    let low = bit_and-ones 16 (base % 2 ^ 16) in
    let mid = bit_and-ones 8 (base / 2 ^ 16 % 2 ^ 8) in
    let high = bit_and-ones 8 (base / 2 ^ 24 % 2 ^ 8) in
    let llow = bit_and-ones 16 (limit % 2 ^ 16) in
    let lhigh = bit_and-ones 4 (limit / 2 ^ 16 % 2 ^ 8) in
    rw
      (
        low,
        mid,
        high,
        llow,
        lhigh,
        bit_or-above 4 (limit / 2 ^ 16 % 2 ^ 8 % 2 ^ 4) flags (omega arith),
      )
      (ground arith)

abbrev pub flat : ℕ → Segment
flat access = record { base = 0; limit = 0xFFFFF; flags = 12; access = access }

-- For a task state segment at a 32-bit address, after `gdt_init` the table holds the null
-- descriptor, the four flat segments of 4 GiB in 4 KiB units, and the task state segment, which
-- ends with its last byte.
pub decode-gdt_init :
    (tss table : ℕ)
    → tss < 2 ^ 32
    → map decode (gdt_init tss table).entries
      ≡ record { base = 0; limit = 0; flags = 0; access = 0 }
        ∷ flat 0x9A
        ∷ flat 0x92
        ∷ flat 0xFA
        ∷ flat 0xF2
        ∷ record { base = tss; limit = 103; flags = 1; access = 0x89 }
        ∷ []
unfolding gdt_init
decode-gdt_init tss table h = rw (
  decode-gdt_create_entry 0 0 0 0 (omega arith) (omega arith),
  decode-gdt_create_entry 0 0xFFFFFFFF 0x9A 12 (omega arith) (omega arith),
  decode-gdt_create_entry 0 0xFFFFFFFF 0x92 12 (omega arith) (omega arith),
  decode-gdt_create_entry 0 0xFFFFFFFF 0xFA 12 (omega arith) (omega arith),
  decode-gdt_create_entry 0 0xFFFFFFFF 0xF2 12 (omega arith) (omega arith),
  decode-gdt_create_entry tss 103 0x89 1 h (omega arith),
)
