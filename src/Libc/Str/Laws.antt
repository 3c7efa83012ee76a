-- ===== src/Libc/Str/Laws.antt =====
-- What the functions of libc/string do.
use Prim.Native.Nat.add
use native.Mathlib.Decide.{dec_lt}
use osd.Base.{
  ℕ, zero, suc, ◌+◌, ◌-◌, ◌≤◌, ◌<◌, u8, Memory, store, for_up, for_up_lem, ltb, leb, ◌==◌,
}
use osd.Base.{not, ◌&&◌, if◌then◌else◌, ◌≡◌, ◌≢◌, arith, some, while_lem}
use osd.Base.{ap, Bool-cases, inl, inr, ◌∙◌, ◌⊎◌}
use osd.Libc.Str.{
  memcpy, move_down, memmove, memset, memcmp, compare_from, less, equal, greater, Order, strlen,
}

copy_up :
    (m : Memory) (dest src size a : ℕ)
    → (dest ≤ src) ⊎ (src + size ≤ dest)
    → for_up size (λ i x. store x (dest + i) (x (src + i))) m a
      ≡ (if leb dest a && ltb a (dest + size) then m (src + (a - dest)) else m a)
copy_up m dest src size a apart =
    for_up_lem
      (λ k x.
        (y : ℕ) → x y ≡ (if leb dest y && ltb y (dest + k) then m (src + (y - dest)) else m y))
      size _ m (λ y. ground arith) (λ i x lt h y. ground (arith, h y, h (src + i))) a

-- Where the areas do not overlap, as `restrict` promises, `memcpy` copies `src` to `dest`, and
-- changes nothing else.
pub memcpy_lem :
    (m : Memory) (dest src size a : ℕ)
    → (dest + size ≤ src) ⊎ (src + size ≤ dest)
    → memcpy m dest src size a
      ≡ (if leb dest a && ltb a (dest + size) then m (src + (a - dest)) else m a)
unfolding memcpy
memcpy_lem m dest src size a apart = copy_up m dest src size a (ground arith)

copy_down :
    (m : Memory) (dest src size a : ℕ)
    → src ≤ dest
    → move_down size dest src m a
      ≡ (if leb dest a && ltb a (dest + size) then m (src + (a - dest)) else m a)
unfolding move_down
copy_down m dest src zero a le = ground arith
copy_down m dest src (suc size) a le =
    ground (arith, copy_down (store m (dest + size) (m (src + size))) dest src size a le)

-- `memmove` copies `src` as it was to `dest`, however the two areas overlap, and changes nothing
-- else.
pub memmove_lem :
    (m : Memory) (dest src size a : ℕ)
    → memmove m dest src size a
      ≡ (if leb dest a && ltb a (dest + size) then m (src + (a - dest)) else m a)
unfolding memmove
memmove_lem m dest src size a = elim (Bool-cases (ltb dest src)) [
  | inl below ↦ rw below (copy_up m dest src size a (ground arith))
  | inr above ↦ rw above (copy_down m dest src size a (ground arith))
]

-- `memset` fills the area with the low byte of the value, and changes nothing else.
pub memset_lem :
    (m : Memory) (buf val size a : ℕ)
    → memset m buf val size a ≡ (if leb buf a && ltb a (buf + size) then u8 val else m a)
unfolding memset
memset_lem m buf val size a =
    for_up_lem (λ k x. x a ≡ (if leb buf a && ltb a (buf + k) then u8 val else m a)) size _ m
      (ground arith) (λ i x lt h. ground arith)

-- How `memcmp` decides: at the first index where the areas differ.
pub FirstDiffers : Memory → ℕ → ℕ → ℕ → ℕ → ℕ → Type 0
FirstDiffers m a b lo hi i =
    (lo ≤ i) × (i < hi) × ((j : ℕ) → lo ≤ j → j < i → m (a + j) ≡ m (b + j))

abbrev pub Decides : Memory → ℕ → ℕ → ℕ → ℕ → Order → Type 0
Decides m a b lo hi equal = (j : ℕ) → lo ≤ j → j < hi → m (a + j) ≡ m (b + j)
Decides m a b lo hi less = (i : ℕ) × FirstDiffers m a b lo hi i × (m (a + i) < m (b + i))
Decides m a b lo hi greater = (i : ℕ) × FirstDiffers m a b lo hi i × (m (b + i) < m (a + i))

-- Where the elements at `i` are equal, what decides from `i + 1` on decides from `i` on.
Decides-cons :
    (m : Memory) (a b i hi : ℕ) (c : Order)
    → m (a + i) ≡ m (b + i)
    → Decides m a b (i + 1) hi c
    → Decides m a b i hi c
unfolding FirstDiffers
Decides-cons m a b i hi equal e d = λ j p q. ground (arith, d j)
Decides-cons m a b i hi less e (k, (p, q, r), d) =
    (k, (omega arith, omega arith, λ j s t. ground (arith, r j)), d)
Decides-cons m a b i hi greater e (k, (p, q, r), d) =
    (k, (omega arith, omega arith, λ j s t. ground (arith, r j)), d)

next : (i left : ℕ) → i + suc left ≡ i + 1 + left
next i left = omega arith

compare_from-Decides :
    (m : Memory) (a b i left : ℕ) → Decides m a b i (i + left) (compare_from m a b i left)
unfolding compare_from FirstDiffers
compare_from-Decides m a b i zero = λ j p q. absurd (omega arith)
compare_from-Decides m a b i (suc left) = elim (Bool-cases (ltb (m (a + i)) (m (b + i)))) [
  | inl lt ↦ rw lt (i, (omega arith, omega arith, λ j p q. absurd (omega arith)), ground arith)
  | inr ge ↦ elim (Bool-cases (ltb (m (b + i)) (m (a + i)))) [
    | inl gt ↦
        rw (ge, gt) (i, (omega arith, omega arith, λ j p q. absurd (omega arith)), ground arith)
    | inr le ↦
        rw (ge, le)
          (Decides-cons m a b i (i + suc left) _ (ground arith)
            (rw (← next i left) at (compare_from-Decides m a b (i + 1) left)))
  ]
]

-- `memcmp` returns 0 exactly where it finds no difference, and otherwise compares the first bytes
-- that differ.
pub memcmp-Decides : (m : Memory) (a b size : ℕ) → Decides m a b 0 size (memcmp m a b size)
unfolding memcmp
memcmp-Decides m a b size = rw (add.zero size) at (compare_from-Decides m a b 0 size)

-- Where the first zero byte is at index `len`, and the fuel is above `len`, `strlen` returns `len`.
pub strlen_lem :
    (fuel : ℕ) (m : Memory) (str len : ℕ)
    → len < fuel
    → m (str + len) ≡ 0
    → ((j : ℕ) → j < len → m (str + j) ≢ 0)
    → strlen fuel m str ≡ some len
unfolding strlen
strlen_lem fuel m str len enough end before =
    let e =
      while_lem (λ k. k ≤ len) (λ k. len - k) (λ k. not (m (str + k) == 0)) (λ k. k + 1)
        (λ k h t. let short : k ≢ len = λ at. ground arith in (omega arith, omega arith)) fuel 0
        (omega arith) (omega arith) in
    e.returns
    ∙ ap some (elim (dec_lt e.final len) [
      | yes inside ↦ absurd (before e.final inside (ground (arith, e.stopped)))
      | no past ↦ omega (arith, e.holds)
    ])
