-- ===== src/Libc/Examples.antt =====
-- Runs and instances of the C library's theorems.
use osd.Base.{ℕ, ◌+◌, ◌^◌, ◌≤◌, Memory, store, ltb, if◌then◌else◌, some}
use osd.Base.{◌≡◌, inl, inr, refl, arith}
use osd.Libc.Str.{memcpy, memmove, memset, memcmp, strlen}
use osd.Libc.Str.Laws.{memcpy_lem, memmove_lem, memset_lem, Decides, memcmp-Decides, strlen_lem}
use osd.Libc.CeilPowTwo.{ceil_pow_two, ceil_pow_two_lem}
use osd.Libc.Itoa.{itoa}
use osd.Libc.Itoa.Laws.{Writes, itoa-negative}
use osd.Libc.Itoa.Width.{Fits, itoa-Fits}

-- The letters a, b, c, … up to index 9, and zeros.
abbrev letters : Memory
letters a = if ltb a 10 then 97 + a else 0

memcpy_run : memcpy letters 20 2 3 21 ≡ 100
memcpy_run = memcpy_lem letters 20 2 3 21 (inr (omega arith))

memmove_lem_example : memmove letters 3 2 4 6 ≡ 102
memmove_lem_example = memmove_lem letters 3 2 4 6

memset_run : memset letters 2 300 3 4 ≡ 44
memset_run = memset_lem letters 2 300 3 4

memcmp_run : Decides letters 0 1 0 4 (memcmp letters 0 1 4)
memcmp_run = memcmp-Decides letters 0 1 4

strlen_run : strlen 20 letters 4 ≡ some 6
strlen_run = strlen_lem 20 letters 4 6 (omega arith) refl (λ j h z. ground arith)

ceil_pow_two_lem_example :
    (k : ℕ) × (ceil_pow_two 33 ≡ 2 ^ k) × (33 ≤ 2 ^ k) × ((j : ℕ) → 33 ≤ 2 ^ j → 2 ^ k ≤ 2 ^ j)
ceil_pow_two_lem_example = ceil_pow_two_lem 33 (omega arith) (omega arith)

itoa_negative_run : Writes 10 1 1 (store letters 0 b'-') (itoa (2 ^ 33) 0xFFFFFFFF letters 10)
itoa_negative_run =
    itoa-negative (2 ^ 33) 0xFFFFFFFF letters (omega arith) (omega arith) (omega arith)

itoa-Fits_example : Fits letters (itoa (2 ^ 33) 0xFFFFFFFF letters 8)
itoa-Fits_example = itoa-Fits (2 ^ 33) 0xFFFFFFFF letters 8 (inl refl) (omega arith) (omega arith)
