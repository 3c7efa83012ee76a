-- ===== src/Tty/Scroll.antt =====
-- `terminal_init` and `terminal_scroll` of lumos/arch/i386/tty.c, cell by cell.
use osd.Base.{ℕ, ◌+◌, ◌-◌, ◌*◌, ◌^◌, u32, Memory, for_up, for_up_lem, arith}
use osd.Base.{◌≡◌, ltb, if◌then◌else◌}
use osd.Tty.{
  Terminal, terminal_init, terminal_scroll, vga_entry, vga_entry_color, vga_height, green, black,
}
use osd.Tty.{copy_row}
use osd.Tty.Cells.{blank_row_lem, copy_row_lem}

-- The whole screen, and nothing outside it, is spaces in green on black; the cursor is at its start.
pub terminal_init_lem :
    (b : Memory) (a : ℕ)
    → let t = terminal_init b in
      (t.row ≡ 0)
      × (t.column ≡ 0)
      × (t.buffer a ≡ (if ltb a 2000 then vga_entry b' ' (vga_entry_color green black) else b a))
unfolding terminal_init
terminal_init_lem b a = (
  omega arith,
  omega arith,
  for_up_lem
      (λ k c. c a ≡ (if ltb a (k * 80) then vga_entry b' ' (vga_entry_color green black) else b a))
      vga_height _ b (ground arith)
      (λ i x lt h. ground (arith, blank_row_lem i (vga_entry_color green black) x a)),
)

rows_moved :
    (n : ℕ) (b : Memory) (a : ℕ)
    → for_up n copy_row b a ≡ (if ltb a (n * 80) then b (a + 80) else b a)
rows_moved n b a =
    for_up_lem (λ k c. (y : ℕ) → c y ≡ (if ltb y (k * 80) then b (y + 80) else b y)) n copy_row b
      (λ y. ground arith) (λ i x lt h y. ground (arith, h y, h (y + 80), copy_row_lem i x y)) a

-- With the cursor below the last line, scrolling moves each line up by one, blanks the last line
-- with the colour in use, leaves what is outside the screen, and takes the cursor up one line.
pub terminal_scroll_lem :
    (t : Terminal) (a : ℕ)
    → t.row ≡ 25
    → ((terminal_scroll t).row ≡ 24)
      × ((terminal_scroll t).column ≡ t.column)
      × ((terminal_scroll t).color ≡ t.color)
      × ((terminal_scroll t).buffer a ≡ (
          if ltb a 1920
          then t.buffer (a + 80)
          else if ltb a 2000
          then vga_entry b' ' t.color
          else t.buffer a))
unfolding terminal_scroll
terminal_scroll_lem t a full =
    let up : u32 (t.row + 2 ^ 32 - 1) ≡ 24 = omega arith in
    rw up (
      omega arith,
      omega arith,
      omega arith,
      ground (
        arith,
        blank_row_lem 24 t.color (for_up (vga_height - 1) copy_row t.buffer) a (omega arith),
        rows_moved 24 t.buffer a,
      ),
    )
