-- ===== src/Pmm/Bitmap.antt =====
-- The bitmap functions at the end of lumos/arch/i386/pmm.c.
pub mod Single
pub mod Range
use osd.Base.{ℕ, ◌+◌, ◌*◌, ◌/◌, ◌%◌, ◌^◌, bit_and, bit_or, u32, not32, full_word}
use osd.Base.{Memory, store, while, leb, ◌==◌, not, ◌&&◌, Option, some, ◌>>=◌}
use osd.Base.{Bool}

abbrev pub word : ℕ
word = 32

-- The address of `mapStart[offset / WORD]`.
abbrev pub word_addr : ℕ → ℕ → ℕ
word_addr map offset = map + 4 * (offset / word)

-- `1 << (offset % WORD)`
abbrev pub mask : ℕ → ℕ
mask offset = 2 ^ (offset % word)

unfoldable pub set_bit : Memory → ℕ → ℕ → Memory
set_bit m map offset =
    store m (word_addr map offset) (bit_or (m (word_addr map offset)) (mask offset))

unfoldable pub unset_bit : Memory → ℕ → ℕ → Memory
unset_bit m map offset =
    store m (word_addr map offset) (bit_and (m (word_addr map offset)) (not32 (mask offset)))

unfoldable pub test_bit : Memory → ℕ → ℕ → Bool
test_bit m map offset = not (bit_and (m (word_addr map offset)) (mask offset) == 0)

-- The variables of the loops: the offset `i`, and the memory.
pub record Cursor : Type 0 where
  pub i : ℕ
  pub mem : Memory

-- The three loops that `set_bits` and `unset_bits` share: single bits by `one` up to a word
-- boundary, whole words `all`, and single bits to the end. `i` wraps as a uint32_t does.
module _ (one : Memory → ℕ → ℕ → Memory) (all map offset_end : ℕ) where
  pub head_test : Cursor → Bool
  head_test c = leb c.i offset_end && not (c.i % word == 0)

  pub word_test : Cursor → Bool
  word_test c = leb (u32 (c.i + word)) offset_end

  pub tail_test : Cursor → Bool
  tail_test c = leb c.i offset_end

  pub bit_step : Cursor → Cursor
  bit_step c = record { i = u32 (c.i + 1); mem = one c.mem map c.i }

  pub word_step : Cursor → Cursor
  word_step c = record { i = u32 (c.i + word); mem = store c.mem (word_addr map c.i) all }

  pub fill_bits : ℕ → Memory → ℕ → Option Memory
  fill_bits fuel m offset_start = do
    a ← while fuel head_test bit_step (record { i = offset_start; mem = m })
    b ← while fuel word_test word_step a
    c ← while fuel tail_test bit_step b
    some c.mem

-- `none` means that one of the loops runs for more than `fuel` rounds.
pub set_bits : ℕ → Memory → ℕ → ℕ → ℕ → Option Memory
set_bits fuel m map offset_start offset_end =
    fill_bits set_bit full_word map offset_end fuel m offset_start

pub unset_bits : ℕ → Memory → ℕ → ℕ → ℕ → Option Memory
unset_bits fuel m map offset_start offset_end =
    fill_bits unset_bit 0 map offset_end fuel m offset_start
