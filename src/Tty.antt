-- ===== src/Tty.antt =====
-- The VGA text terminal, lumos/arch/i386/tty.c and lumos/arch/i386/vga.h. The screen is the memory
-- of 16-bit cells from `VGA_MEMORY` on; nothing bounds the index of a cell but the code itself.
pub mod Cells
pub mod Scroll
pub mod Screen
pub mod Types
pub mod Line
pub mod Colors
pub mod Page
mod Examples
use osd.Base.{
  ℕ, ◌+◌, ◌-◌, ◌*◌, ◌^◌, u8, u16, u32, shl, bit_or, Memory, store, for_up, List, [], ◌∷◌,
}
use osd.Base.{leb, ◌==◌, if◌then◌else◌, chars, Option, some, ◌>>=◌}
use osd.Libc.Str.{strlen}

abbrev pub vga_height : ℕ
vga_height = 25

abbrev pub vga_width : ℕ
vga_width = 80

-- `enum vga_color`
pub data VgaColor : Type 0 where
  black blue green cyan red magenta brown light_grey : VgaColor
  dark_grey light_blue light_green light_cyan light_red light_magenta light_brown white : VgaColor

-- The value of the enumerator.
abbrev pub vga_color : VgaColor → ℕ
vga_color black = 0
vga_color blue = 1
vga_color green = 2
vga_color cyan = 3
vga_color red = 4
vga_color magenta = 5
vga_color brown = 6
vga_color light_grey = 7
vga_color dark_grey = 8
vga_color light_blue = 9
vga_color light_green = 10
vga_color light_cyan = 11
vga_color light_red = 12
vga_color light_magenta = 13
vga_color light_brown = 14
vga_color white = 15

abbrev pub vga_entry_color : VgaColor → VgaColor → ℕ
vga_entry_color fg bg = u8 (bit_or (u8 (vga_color fg)) (shl (vga_color bg) 4))

pub vga_entry : ℕ → ℕ → ℕ
vga_entry c color = u16 (bit_or c (shl color 8))

-- The static variables of tty.c.
pub record Terminal : Type 0 where
  pub row : ℕ
  pub column : ℕ
  pub color : ℕ
  pub buffer : Memory

-- Fills one row of cells with spaces.
pub blank_row : ℕ → ℕ → Memory → Memory
blank_row row color b =
    for_up vga_width (λ x c. store c (u32 (row * vga_width + x)) (vga_entry b' ' color)) b

pub terminal_init : Memory → Terminal
terminal_init b =
    let color = vga_entry_color green black in
    record {
      row = 0;
      column = 0;
      color = color;
      buffer = for_up vga_height (λ y c. blank_row y color c) b;
    }

-- Copies row `y + 1` into row `y`.
pub copy_row : ℕ → Memory → Memory
copy_row y b = for_up vga_width (λ x c. store c (y * vga_width + x) (c ((y + 1) * vga_width + x))) b

pub terminal_scroll : Terminal → Terminal
terminal_scroll t =
    let moved = for_up (vga_height - 1) copy_row t.buffer in
    let row = u32 (t.row + 2 ^ 32 - 1) in
    record t { row = row; buffer = blank_row row t.color moved }

-- The index of the cell at the cursor.
abbrev pub cursor : Terminal → ℕ
cursor t = u32 (t.row * vga_width + t.column)

pub newline : Terminal → Terminal
newline t = record t { column = 0; row = u32 (t.row + 1) }

pub tab : Terminal → Terminal
tab t = record t { column = u32 (t.column + 4) }

pub backspace : Terminal → Terminal
backspace t =
    let t' = record t { column = if t.column == 0 then 0 else t.column - 1 } in
    record t' { buffer = store t.buffer (cursor t') (vga_entry b' ' t.color) }

-- The last line of the screen scrolls as soon as it is full.
pub advance : Terminal → Terminal
advance t =
    let next = u32 (t.column + 1) in
    if leb vga_width next
    then (let t' = record t { column = 0; row = u32 (t.row + 1) } in
        if leb vga_height t'.row then terminal_scroll t' else t')
    else record t { column = next }

pub put_visible : Terminal → ℕ → Terminal
unfolding advance
put_visible t c = advance (record t { buffer = store t.buffer (cursor t) (vga_entry c t.color) })

-- The parameter is a `char`, here by its value as an unsigned one.
pub terminal_putchar : Terminal → ℕ → Terminal
terminal_putchar t0 ch =
    let c = u8 ch in
    let t = if t0.row == vga_height then terminal_scroll t0 else t0 in
    if c == b'\n'
    then newline t
    else if c == b'\t'
    then tab t
    else if c == 8
    then backspace t
    else put_visible t c

unfoldable pub terminal_write : Terminal → List ℕ → Terminal
terminal_write t [] = t
terminal_write t (c ∷ cs) = terminal_write (terminal_putchar t c) cs

-- The string in memory `m` at address `str`; `none` where `strlen` returns none.
pub terminal_writestring : ℕ → Memory → Terminal → ℕ → Option Terminal
terminal_writestring fuel m t str = do
  len ← strlen fuel m str
  some (terminal_write t (chars m str len))
