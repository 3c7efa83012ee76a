-- ===== src/Timer.antt =====
-- The programmable interval timer, lumos/arch/i386/timer.c and lumos/include/lumos/timer.h.
pub mod Sleep
pub mod Divider
use osd.Base.{ℕ, zero, suc, ◌+◌, ◌*◌, ◌/◌, ◌%◌, ◌^◌, u8, u16, u32, shr, bit_and, leb, if◌then◌else◌}
use osd.Base.{List, [], ◌∷◌, Option, none, some, Bool}
use osd.Idt.{pic_master_data_port, pic_slave_data_port}

abbrev pub pit_channel0_data : ℕ
pit_channel0_data = 0x40

abbrev pub pit_channel0_command : ℕ
pit_channel0_command = 0x43

-- `ticks` after one timer interrupt.
unfoldable pub timer_tick : ℕ → ℕ
timer_tick ticks = u32 (ticks + 1)

-- `clock_ticks` reads the counter.
abbrev pub clock_ticks : ℕ → ℕ
clock_ticks ticks = ticks

pub target_ticks : ℕ → ℕ → ℕ → ℕ
target_ticks ticks clocks_per_second ms = u32 (ticks + u32 (ms * clocks_per_second) / 1000)

-- The loop of `sleep`. The list says of each interrupt that ends a `hlt` whether it is the timer's;
-- the result is `ticks` at the return, and the interrupts still to come. `none` means that the loop
-- still waits when the list ends.
pub sleep_loop : ℕ → ℕ → List Bool → Option (ℕ × List Bool)
sleep_loop target ticks [] = if leb ticks target then none else some (ticks, [])
sleep_loop target ticks (tick ∷ later) =
    let rest = sleep_loop target (if tick then timer_tick ticks else ticks) later in
    if leb ticks target then rest else some (ticks, tick ∷ later)

pub sleep : ℕ → ℕ → ℕ → List Bool → Option (ℕ × List Bool)
sleep clocks_per_second ms ticks interrupts =
    sleep_loop (target_ticks ticks clocks_per_second ms) ticks interrupts

-- `(uint16_t)(1193182 / targetFrequency)`
pub divider : ℕ → ℕ
divider target_frequency = u16 (1193182 / target_frequency)

-- The bytes that `init_timer` sends, with their ports in order.
unfoldable pub init_timer : ℕ → List (ℕ × ℕ)
unfolding divider
init_timer target_frequency =
    (pic_master_data_port, 0xFE)
    ∷ (pic_slave_data_port, 0xFF)
    ∷ (pit_channel0_command, 0x36)
    ∷ (pit_channel0_data, u8 (bit_and (divider target_frequency) 0x00FF))
    ∷ (pit_channel0_data, bit_and (u8 (shr (divider target_frequency) 8)) 0x00FF)
    ∷ []
