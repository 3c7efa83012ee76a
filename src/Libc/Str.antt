-- ===== src/Libc/Str.antt =====
-- libc/string: memcpy, memmove, memset, memcmp and strlen, over a memory of bytes. The address of
-- element `i` of an array is the array's address plus `i`.
pub mod Laws
use osd.Base.{
  ℕ, zero, suc, ◌+◌, ◌-◌, ◌%◌, ◌^◌, u8, Memory, store, for_up, ltb, ◌==◌, not, if◌then◌else◌,
}
use osd.Base.{Option, while}

-- The functions return their first argument; here they return the memory.
pub memcpy : Memory → ℕ → ℕ → ℕ → Memory
memcpy m dest src size = for_up size (λ i x. store x (dest + i) (x (src + i))) m

-- The loop of `memmove` from the end, with `i` elements to go.
pub move_down : ℕ → ℕ → ℕ → Memory → Memory
move_down zero dest src m = m
move_down (suc i) dest src m = move_down i dest src (store m (dest + i) (m (src + i)))

pub memmove : Memory → ℕ → ℕ → ℕ → Memory
memmove m dest src size =
    if ltb dest src
    then for_up size (λ i x. store x (dest + i) (x (src + i))) m
    else move_down size dest src m

pub memset : Memory → ℕ → ℕ → ℕ → Memory
memset m buf val size = for_up size (λ i x. store x (buf + i) (u8 val)) m

-- The three results of `memcmp`, -1, 0 and 1.
pub data Order : Type 0 where
  less equal greater : Order

-- The loop of `memcmp` at index `i`, with `left` elements to go.
pub compare_from : Memory → ℕ → ℕ → ℕ → ℕ → Order
compare_from m a b i zero = equal
compare_from m a b i (suc left) =
    let rest = compare_from m a b (i + 1) left in
    if ltb (m (a + i)) (m (b + i))
    then less
    else if ltb (m (b + i)) (m (a + i))
    then greater
    else rest

pub memcmp : Memory → ℕ → ℕ → ℕ → Order
unfolding compare_from
memcmp m a b size = compare_from m a b 0 size

-- `none` means that there is no zero byte among the first `fuel`.
pub strlen : ℕ → Memory → ℕ → Option ℕ
strlen fuel m str = while fuel (λ len. not (m (str + len) == 0)) (λ len. len + 1) 0
