-- ===== src/Idt/Pic.antt =====
-- What the two 8259 interrupt controllers make of the bytes that lumos/arch/i386/idt.c, timer.c and
-- keyboard.c send them, after the controller's data sheet.
use osd.Base.{ℕ, ◌+◌, ◌-◌, bit_and, ltb, ◌==◌, ◌&&◌, if◌then◌else◌, List, [], ◌∷◌, ◌++◌}
use osd.Base.{Bool, ◌≡◌, refl}
use osd.Base.Bits.{bit}
use osd.Idt.{
  pic_master_command_port, pic_master_data_port, pic_slave_command_port, pic_slave_data_port,
  pic_setup,
}

-- What the next byte to the data port is: the mask of requests, or one of the three words that follow
-- the first word of an initialisation.
pub data Expects : Type 0 where
  mask vector wiring mode : Expects

-- The first word of the last initialisation, the vector of its first request, the mask of the
-- requests that it holds back, and what it expects.
pub record Pic : Type 0 where
  pub icw1 : ℕ
  pub base : ℕ
  pub held : ℕ
  pub expects : Expects

pub record Pics : Type 0 where
  pub master : Pic
  pub slave : Pic

-- A byte with bit 4 begins an initialisation; others, such as the acknowledgement, do not matter here.
unfoldable pub pic_command : Pic → ℕ → Pic
pic_command p b =
    if bit_and b 0x10 == 0 then p else record p { icw1 = b; held = 0; expects = vector }

-- Bit 0 of the first word says that a word for the mode comes last.
unfoldable pub before_mode : Pic → Pic
before_mode p = record p { expects = if bit_and p.icw1 0x01 == 0 then mask else mode }

-- Bit 1 of the first word says that there is one controller only, so that no word for the wiring
-- comes.
unfoldable pub after_vector : Pic → Pic
after_vector p = if bit_and p.icw1 0x02 == 0 then record p { expects = wiring } else before_mode p

unfoldable pub pic_data : Pic → ℕ → Pic
pic_data p b = elim p.expects [
  | mask ↦ record p { held = b }
  | vector ↦ after_vector (record p { base = bit_and b 0xF8 })
  | wiring ↦ before_mode p
  | mode ↦ record p { expects = mask }
]

-- A byte sent to a port, which may be another device's.
unfoldable pub pic_write : Pics → ℕ × ℕ → Pics
pic_write s (port, b) =
    if port == pic_master_command_port
    then record s { master = pic_command s.master b }
    else if port == pic_slave_command_port
    then record s { slave = pic_command s.slave b }
    else if port == pic_master_data_port
    then record s { master = pic_data s.master b }
    else if port == pic_slave_data_port
    then record s { slave = pic_data s.slave b }
    else s

unfoldable pub pic_writes : Pics → List (ℕ × ℕ) → Pics
pic_writes s [] = s
pic_writes s (o ∷ os) = pic_writes (pic_write s o) os

-- Requests from 8 on come through the slave, which is wired to line 2 of the master.
unfoldable pub is_enabled : Pics → ℕ → Bool
is_enabled s n =
    if ltb n 8
    then bit n s.master.held == 0
    else (bit (n - 8) s.slave.held == 0 && bit 2 s.master.held == 0)

unfoldable pub vector_of : Pics → ℕ → ℕ
vector_of s n = if ltb n 8 then s.master.base + n else s.slave.base + (n - 8)

pub pic_writes-append :
    (s : Pics) (a b : List (ℕ × ℕ)) → pic_writes s (a ++ b) ≡ pic_writes (pic_writes s a) b
unfolding pic_writes
pic_writes-append s [] b = refl
pic_writes-append s (o ∷ a) b = pic_writes-append (pic_write s o) a b

-- The controllers after an initialisation with vectors from 0x20 and from 0x28 on, and masks.
abbrev pub ready_pics : ℕ → ℕ → Pics
ready_pics m s = record {
  master = record { icw1 = 0x11; base = 0x20; held = m; expects = mask };
  slave = record { icw1 = 0x11; base = 0x28; held = s; expects = mask };
}

-- Whatever the controllers did before, after `pic_setup` their vectors follow those of the 32
-- exceptions, and they hold every request back.
pub pic_writes-pic_setup : (s : Pics) → pic_writes s pic_setup ≡ ready_pics 0xFF 0xFF
unfolding pic_setup pic_writes pic_write pic_command pic_data after_vector before_mode
pic_writes-pic_setup s = refl

-- After that, two bytes to the data ports are the masks.
pub pic_writes-masks :
    (m m' a b : ℕ)
    → pic_writes (ready_pics m m') ((pic_master_data_port, a) ∷ (pic_slave_data_port, b) ∷ [])
      ≡ ready_pics a b
unfolding pic_writes pic_write pic_data
pic_writes-masks m m' a b = refl
