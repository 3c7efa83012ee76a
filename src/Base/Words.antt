-- ===== src/Base/Words.antt =====
-- Unsigned machine words, and a memory of 32-bit words.
use Prim.Native.Nat.{ℕ, zero, suc, ◌+◌, ◌-◌, ◌*◌, ◌/◌, ◌%◌, ◌^◌, ◌<◌}
use mathlib.Core.List.{List, [], ◌∷◌}
use osd.Base.Tests.{◌==◌, if◌then◌else◌}

abbrev pub u8 : ℕ → ℕ
u8 n = n % 2 ^ 8

abbrev pub u16 : ℕ → ℕ
u16 n = n % 2 ^ 16

abbrev pub u32 : ℕ → ℕ
u32 n = n % 2 ^ 32

abbrev pub full_word : ℕ
full_word = 0xffffffff

-- `x >> k`, and `x << k` before it is cut to its width.
abbrev pub shr : ℕ → ℕ → ℕ
shr x k = x / 2 ^ k

abbrev pub shl : ℕ → ℕ → ℕ
shl x k = x * 2 ^ k

-- `~x` of a 32-bit word.
abbrev pub not32 : ℕ → ℕ
not32 x = full_word - x

-- Every address holds a word; `store` changes the word at one address.
abbrev pub Memory : Type 0
Memory = ℕ → ℕ

abbrev pub store : Memory → ℕ → ℕ → Memory
store m a v b = if b == a then v else m b

abbrev pub IsWords : Memory → Type 0
IsWords m = (a : ℕ) → m a < 2 ^ 32

-- `n` elements of the memory, from address `a` on.
unfoldable pub chars : Memory → ℕ → ℕ → List ℕ
chars m a zero = []
chars m a (suc n) = m a ∷ chars m (a + 1) n
