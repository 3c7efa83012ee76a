-- ===== src/Libc/Itoa/Reverse.antt =====
-- The second loop of `itoa` (libc/stdlib/itoa.c) reverses a part of the buffer in place.
use osd.Base.{ℕ, ◌+◌, ◌-◌, ◌≤◌, ◌<◌, Memory, while, while_lem, ltb, leb}
use osd.Base.{◌&&◌, ◌||◌, if◌then◌else◌, ◌≡◌, arith, true, some}
use osd.Libc.Itoa.{Swapping, swap_ends}

-- The part from `lo` up to `hi` is reversed outside `s.j`, …, `s.i` - 1.
pub record IsSwapped (lo hi : ℕ) (buf : Memory) (s : Swapping) : Type 0 where
  pub balance : s.j + s.i ≡ lo + hi
  pub started : lo ≤ s.j
  pub met : s.j ≤ s.i + 1
  pub cells :
      (k : ℕ)
      → s.buf k ≡ (
          if (leb lo k && ltb k s.j) || (leb s.i k && ltb k hi)
          then buf (lo + hi - 1 - k)
          else buf k)

module _ (lo hi : ℕ) (buf : Memory) where
  swap_ends-IsSwapped :
      (s : Swapping)
      → IsSwapped lo hi buf s
      → ltb s.j s.i ≡ true
      → IsSwapped lo hi buf (swap_ends s) × ((swap_ends s).i - (swap_ends s).j < s.i - s.j)
  unfolding swap_ends
  swap_ends-IsSwapped s h t =
      let apart : s.j < s.i = ground arith in
      (
        record {
          balance = omega (arith, h.balance);
          started = omega (arith, h.started);
          met = omega arith;
          cells =
              λ k. ground (arith, h.cells k, h.cells s.j, h.cells (s.i - 1), h.balance, h.started);
        },
        omega arith,
      )

  -- The loop ends with the whole part reversed, and nothing else changed.
  pub reversed :
      (fuel : ℕ)
      → hi < fuel
      → lo ≤ hi
      → (s : Swapping) × (while fuel
            (λ s. ltb s.j s.i)
            swap_ends
            (record { j = lo; i = hi; buf = buf })
          ≡ some s)
        × ((k : ℕ) → s.buf k ≡ (if leb lo k && ltb k hi then buf (lo + hi - 1 - k) else buf k))
  reversed fuel f le =
      let e =
        while_lem (IsSwapped lo hi buf) (λ s. s.i - s.j) (λ s. ltb s.j s.i) swap_ends
          swap_ends-IsSwapped fuel (record { j = lo; i = hi; buf = buf }) (omega arith)
          (record {
            balance = omega arith;
            started = omega arith;
            met = omega arith;
            cells = λ k. ground arith;
          }) in
      (
        e.final,
        e.returns,
        λ k. ground (arith, e.holds.cells k, e.holds.balance, e.holds.met, e.stopped),
      )
