-- ===== src/Kernel/Start/Controllers.antt =====
-- Which interrupt requests get through while `kernel_main` of lumos/kernel/kernel.c sets up the parts.
use osd.Base.{ℕ, ◌<◌, ltb, ◌==◌, not, Bool, true, false, if◌then◌else◌, all_below, all_below_lem}
use osd.Base.{List, [], ◌∷◌, ◌++◌, ◌≡◌, refl, arith, inl, inr, Bool-cases}
use osd.Base.Bits.{bit}
use osd.Idt.{idt_init, pic_setup, pic_master_data_port, pic_slave_data_port}
use osd.Idt.Pic.{
  Pics, pic_writes, pic_write, pic_data, pic_writes-append, pic_writes-pic_setup, pic_writes-masks,
  ready_pics, is_enabled, vector_of,
}
use osd.Isr.{irq_vector}
use osd.Timer.{init_timer}
use osd.Com.{init_com1}
use osd.Kernel.{Image, Found}
use osd.Kernel.Start.SetUp.{early_bytes}

-- The timer's set-up opens line 0 alone.
pub pic_writes-init_timer :
    (m m' frequency : ℕ)
    → pic_writes (ready_pics m m') (init_timer frequency) ≡ ready_pics 0xFE 0xFF
unfolding init_timer pic_writes pic_write pic_data
pic_writes-init_timer m m' frequency = refl

-- The serial port is no controller's.
pic_writes-init_com1 : (s : Pics) (echo : ℕ) → pic_writes s (init_com1 echo) ≡ s
unfolding init_com1 pic_writes pic_write
pic_writes-init_com1 s echo = elim (Bool-cases (echo == 0x55)) [
  | inl e ↦ rw e refl
  | inr e ↦ rw e refl
]

pub pic_writes-early_bytes :
    (s : Pics) (image : Image) (f : Found)
    → pic_writes s (early_bytes image f) ≡ ready_pics 0xFC 0xFF
unfolding idt_init
pic_writes-early_bytes s image f =
    let masks : List (ℕ × ℕ) = (pic_master_data_port, 0xFC) ∷ (pic_slave_data_port, 0xFF) ∷ [] in
    rw
      (
        pic_writes-append s pic_setup (init_timer 50 ++ (masks ++ init_com1 f.echo)),
        pic_writes-pic_setup s,
        pic_writes-append (ready_pics 0xFF 0xFF) (init_timer 50) (masks ++ init_com1 f.echo),
        pic_writes-init_timer 0xFF 0xFF 50,
        pic_writes-append (ready_pics 0xFE 0xFF) masks (init_com1 f.echo),
        pic_writes-masks 0xFE 0xFF 0xFC 0xFF,
      )
      (pic_writes-init_com1 (ready_pics 0xFC 0xFF) f.echo)

abbrev agrees : Bool → Bool → Bool
agrees a b = if a then b else not b

agrees_lem : (a b : Bool) → agrees a b ≡ true → a ≡ b
agrees_lem true b e = cc
agrees_lem false true e = cc
agrees_lem false false e = refl

enabled_table : all_below 16 (λ n. agrees (is_enabled (ready_pics 0xFC 0xFF) n) (ltb n 2)) ≡ true
unfolding all_below is_enabled bit
enabled_table = refl

pub enabled_lem : (n : ℕ) → n < 16 → is_enabled (ready_pics 0xFC 0xFF) n ≡ ltb n 2
enabled_lem n h = agrees_lem _ _ (all_below_lem 16 _ n h enabled_table)

pub vector_lem : (m m' n : ℕ) → n < 16 → vector_of (ready_pics m m') n ≡ irq_vector n
unfolding vector_of
vector_lem m m' n h = ground arith
