-- ===== src/Tty/Types.antt =====
-- The C types of the variables of lumos/arch/i386/tty.c: `size_t` is 32 bits wide, `tty_color` is a
-- `uint8_t`, and a cell of the screen a `uint16_t`.
use osd.Base.{ℕ, ◌+◌, ◌*◌, ◌-◌, ◌^◌, ◌<◌, u8, u32, Memory, store, for_up_lem, arith}
use osd.Base.{List, [], ◌∷◌, Bool, true, false, leb, ◌==◌, if◌then◌else◌, Bool-cases, inl, inr}
use osd.Tty.{
  Terminal, vga_entry, vga_width, vga_height, blank_row, copy_row, terminal_init, terminal_scroll,
  newline, tab, backspace, advance, put_visible, terminal_putchar, terminal_write,
}

-- The memory of the screen holds 16-bit cells.
abbrev pub Cells : Memory → Type 0
Cells b = (a : ℕ) → b a < 2 ^ 16

pub record HasTypes (t : Terminal) : Type 0 where
  pub row : t.row < 2 ^ 32
  pub column : t.column < 2 ^ 32
  pub color : t.color < 2 ^ 8
  pub cells : Cells t.buffer

store-Cells : (b : Memory) (at c color : ℕ) → Cells b → Cells (store b at (vga_entry c color))
unfolding vga_entry
store-Cells b at c color h a = ground (arith, h a)

blank_row-Cells : (row color : ℕ) (b : Memory) → Cells b → Cells (blank_row row color b)
unfolding blank_row
blank_row-Cells row color b h =
    for_up_lem (λ k c. Cells c) vga_width _ b h
      (λ i c lt p. store-Cells c (u32 (row * vga_width + i)) b' ' color p)

copy_row-Cells : (y : ℕ) (b : Memory) → Cells b → Cells (copy_row y b)
unfolding copy_row
copy_row-Cells y b h =
    for_up_lem (λ k c. (a : ℕ) → c a < 2 ^ 16) vga_width _ b h
      (λ i c lt p a. ground (arith, p a, p ((y + 1) * vga_width + i)))

pub terminal_init-HasTypes : (b : Memory) → Cells b → HasTypes (terminal_init b)
unfolding terminal_init
terminal_init-HasTypes b h = record {
  row = omega arith;
  column = omega arith;
  color = omega arith;
  cells = for_up_lem (λ k c. Cells c) vga_height _ b h (λ i c lt p. blank_row-Cells i _ c p);
}

terminal_scroll-HasTypes : (t : Terminal) → HasTypes t → HasTypes (terminal_scroll t)
unfolding terminal_scroll
terminal_scroll-HasTypes t h = record {
  row = omega arith;
  column = h.column;
  color = h.color;
  cells = blank_row-Cells _ t.color _ (
      for_up_lem (λ k c. Cells c) (vga_height - 1) copy_row t.buffer h.cells
        (λ i c lt p. copy_row-Cells i c p));
}

module _ (t : Terminal) (h : HasTypes t) where
  newline-HasTypes : HasTypes (newline t)
  unfolding newline
  newline-HasTypes = record {
    row = omega arith;
    column = omega arith;
    color = h.color;
    cells = h.cells;
  }

  tab-HasTypes : HasTypes (tab t)
  unfolding tab
  tab-HasTypes = record { row = h.row; column = omega arith; color = h.color; cells = h.cells }

  backspace-HasTypes : HasTypes (backspace t)
  unfolding backspace
  backspace-HasTypes = record {
    row = h.row;
    column = ground (arith, h.column);
    color = h.color;
    cells = store-Cells t.buffer _ b' ' t.color h.cells;
  }

  advance-HasTypes : HasTypes (advance t)
  unfolding advance
  advance-HasTypes = elim (Bool-cases (leb vga_width (u32 (t.column + 1)))) [
    | inl full ↦ elim (Bool-cases (leb vga_height (u32 (t.row + 1)))) [
      | inl last ↦ rw (full, last) (terminal_scroll-HasTypes below below-HasTypes)
      | inr room ↦ rw (full, room) below-HasTypes
    ]
    | inr inside ↦
        rw inside (record { row = h.row; column = omega arith; color = h.color; cells = h.cells })
  ]
    where
      below : Terminal
      below = record t { column = 0; row = u32 (t.row + 1) }

      below-HasTypes : HasTypes below
      below-HasTypes = record {
        row = omega arith;
        column = omega arith;
        color = h.color;
        cells = h.cells;
      }

put_visible-HasTypes : (t : Terminal) (c : ℕ) → HasTypes t → HasTypes (put_visible t c)
unfolding put_visible
put_visible-HasTypes t c h = advance-HasTypes _ (record {
  row = h.row;
  column = h.column;
  color = h.color;
  cells = store-Cells t.buffer _ c t.color h.cells;
})

if-HasTypes : (b : Bool) (s t : Terminal) → HasTypes s → HasTypes t → HasTypes (if b then s else t)
if-HasTypes true s t h k = h
if-HasTypes false s t h k = k

-- Every character leaves the terminal's variables within their types, wherever the cursor is.
pub terminal_putchar-HasTypes :
    (t : Terminal) (ch : ℕ) → HasTypes t → HasTypes (terminal_putchar t ch)
unfolding terminal_putchar
terminal_putchar-HasTypes t ch h =
    let start = if t.row == vga_height then terminal_scroll t else t in
    let s = if-HasTypes (t.row == vga_height) _ _ (terminal_scroll-HasTypes t h) h in
    if-HasTypes (u8 ch == b'\n') _ _ (newline-HasTypes start s) (
      if-HasTypes (u8 ch == b'\t') _ _ (tab-HasTypes start s) (
        if-HasTypes (u8 ch == 8) _ _ (backspace-HasTypes start s)
          (put_visible-HasTypes start (u8 ch) s)))

pub terminal_write-HasTypes :
    (t : Terminal) (cs : List ℕ) → HasTypes t → HasTypes (terminal_write t cs)
unfolding terminal_write
terminal_write-HasTypes t [] h = h
terminal_write-HasTypes t (c ∷ cs) h =
    terminal_write-HasTypes (terminal_putchar t c) cs (terminal_putchar-HasTypes t c h)
