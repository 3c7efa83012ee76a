-- ===== src/Tty/Cells.antt =====
-- The loops of lumos/arch/i386/tty.c over the cells of a row.
use osd.Base.{ℕ, ◌+◌, ◌-◌, ◌*◌, ◌≤◌, ◌<◌, Memory, store, for_up, for_up_lem, arith}
use osd.Base.{◌≡◌, ◌∙◌, ltb, leb, ◌&&◌, if◌then◌else◌}
use osd.Tty.{vga_entry, blank_row, copy_row, vga_width}

-- A copy towards lower addresses, from cells that it has not reached yet.
pub for_up-copy :
    (n to from : ℕ) (b : Memory) (a : ℕ)
    → to ≤ from
    → for_up n (λ x c. store c (to + x) (c (from + x))) b a
      ≡ (if leb to a && ltb a (to + n) then b (from + (a - to)) else b a)
for_up-copy n to from b a le =
    for_up_lem
      (λ k c. (y : ℕ) → c y ≡ (if leb to y && ltb y (to + k) then b (from + (y - to)) else b y)) n _
      b (λ y. ground arith) (λ i x lt h y. ground (arith, h y, h (from + i))) a

pub blank_row_lem :
    (row color : ℕ) (b : Memory) (a : ℕ)
    → row < 25
    → blank_row row color b a
      ≡ (if leb (row * 80) a && ltb a (row * 80 + 80) then vga_entry b' ' color else b a)
unfolding blank_row
blank_row_lem row color b a h =
    for_up_lem
      (λ k c.
        c a ≡ (if leb (row * 80) a && ltb a (row * 80 + k) then vga_entry b' ' color else b a))
      vga_width _ b (ground arith) (λ i x lt e. ground arith)

pub copy_row_lem :
    (y : ℕ) (b : Memory) (a : ℕ)
    → copy_row y b a ≡ (if leb (y * 80) a && ltb a (y * 80 + 80) then b (a + 80) else b a)
unfolding copy_row
copy_row_lem y b a = for_up-copy vga_width (y * 80) ((y + 1) * 80) b a (omega arith) ∙ ground arith
