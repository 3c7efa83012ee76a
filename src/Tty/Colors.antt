-- ===== src/Tty/Colors.antt =====
-- What the video hardware reads of a cell of the screen (lumos/arch/i386/vga.h): the character in the
-- low byte, the colour of the text in the next four bits, and that of the ground in the last four.
use osd.Base.{ℕ, ◌+◌, ◌*◌, ◌/◌, ◌%◌, ◌^◌, ◌<◌, u8, ◌≡◌, arith}
use osd.Base.Bits.{bit_or-above}
use osd.Tty.{
  VgaColor, vga_color, vga_entry_color, vga_entry, black, blue, green, cyan, red, magenta, brown,
  light_grey, dark_grey, light_blue, light_green, light_cyan, light_red, light_magenta, light_brown,
  white,
}

vga_color-lt : (c : VgaColor) → vga_color c < 16
vga_color-lt black = omega arith
vga_color-lt blue = omega arith
vga_color-lt green = omega arith
vga_color-lt cyan = omega arith
vga_color-lt red = omega arith
vga_color-lt magenta = omega arith
vga_color-lt brown = omega arith
vga_color-lt light_grey = omega arith
vga_color-lt dark_grey = omega arith
vga_color-lt light_blue = omega arith
vga_color-lt light_green = omega arith
vga_color-lt light_cyan = omega arith
vga_color-lt light_red = omega arith
vga_color-lt light_magenta = omega arith
vga_color-lt light_brown = omega arith
vga_color-lt white = omega arith

entry_color : (fg bg : VgaColor) → vga_entry_color fg bg ≡ vga_color fg + vga_color bg * 16
entry_color fg bg =
    let low : u8 (vga_color fg) ≡ vga_color fg = omega (arith, vga_color-lt fg) in
    rw low (
      omega (
        arith,
        bit_or-above 4 (vga_color fg) (vga_color bg) (vga_color-lt fg),
        vga_color-lt fg,
        vga_color-lt bg,
      ))

-- The hardware reads back the character and the two colours that an entry was made from.
pub vga_entry_lem :
    (c : ℕ) (fg bg : VgaColor)
    → c < 2 ^ 8
    → let cell = vga_entry c (vga_entry_color fg bg) in
      (cell % 2 ^ 8 ≡ c) × (cell / 2 ^ 8 % 2 ^ 4 ≡ vga_color fg) × (cell / 2 ^ 12 ≡ vga_color bg)
unfolding vga_entry
vga_entry_lem c fg bg h =
    let color : ℕ = vga_color fg + vga_color bg * 16 in
    let split = bit_or-above 8 c color h in
    let small = vga_color-lt fg in
    let small' = vga_color-lt bg in
    rw (entry_color fg bg) (
      omega (arith, split, small, small'),
      omega (arith, split, small, small'),
      omega (arith, split, small, small'),
    )
