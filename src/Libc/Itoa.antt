-- ===== src/Libc/Itoa.antt =====
-- libc/stdlib/itoa.c: a number as text in a buffer. `unsigned long` has 32 bits on this machine.
pub mod Digits
pub mod Reverse
pub mod Laws
pub mod Width
use osd.Base.{ℕ, ◌+◌, ◌-◌, ◌/◌, ◌%◌, ◌^◌, u8, u32, Memory, store, while, Option, none, some, ◌>>=◌}
use osd.Base.{Bool, ltb, leb, ◌==◌, not, ◌&&◌, if◌then◌else◌}

-- The variables of the two loops.
pub record Writing : Type 0 where
  pub num : ℕ
  pub i : ℕ
  pub buf : Memory

pub record Swapping : Type 0 where
  pub j : ℕ
  pub i : ℕ
  pub buf : Memory

-- The character of a digit. On the cast to `char` only the low byte is kept.
pub digit_char : ℕ → ℕ
digit_char digit = u8 (if ltb 9 digit then b'A' + (digit - 10) else digit + b'0')

pub write_digit : ℕ → Writing → Writing
write_digit radix w = record {
  num = w.num / radix;
  i = w.i + 1;
  buf = store w.buf w.i (digit_char (w.num % radix));
}

-- `temp = buf[j]; buf[j++] = buf[--i]; buf[i] = temp`
pub swap_ends : Swapping → Swapping
swap_ends s =
    let temp = s.buf s.j in
    let last = s.i - 1 in
    record { j = s.j + 1; i = last; buf = store (store s.buf s.j (s.buf last)) last temp }

-- The digits of a number that is not 0, from index `start` on, and the end of the text.
pub write_number : ℕ → ℕ → ℕ → ℕ → Memory → Option Memory
write_number fuel num radix start buf = do
  w ← while fuel (λ w. ltb 0 w.num) (write_digit radix) (record { num = num; i = start; buf = buf })
  let ended = store w.buf w.i 0
  s ← while fuel (λ s. ltb s.j s.i) swap_ends (record { j = start; i = w.i; buf = ended })
  some s.buf

-- The buffer after the call; `buf` is the buffer's content by index. `none` means that a loop runs
-- for more than `fuel` rounds. A number is negative for radix 10 if its top bit is set.
pub itoa : ℕ → ℕ → Memory → ℕ → Option Memory
itoa fuel num buf radix =
    if num == 0
    then some (store (store buf 0 b'0') 1 0)
    else if (radix == 10) && leb (2 ^ 31) num
    then write_number fuel (u32 (2 ^ 32 - num)) radix 1 (store buf 0 b'-')
    else write_number fuel num radix 0 buf
