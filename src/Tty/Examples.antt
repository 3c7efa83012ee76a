-- ===== src/Tty/Examples.antt =====
-- Runs and instances of the terminal's theorems.
use osd.Base.{ℕ, zero, suc, Memory, List, [], ◌∷◌, ltb, if◌then◌else◌}
use osd.Base.{◌≡◌, refl, arith}
use osd.Tty.{Terminal, terminal_init, terminal_scroll, terminal_putchar, terminal_write, vga_entry}
use osd.Tty.{vga_entry_color, green, black, white, blue}
use osd.Tty.Colors.{vga_entry_lem}
use osd.Base.{◌%◌, ◌/◌, ◌^◌}
use osd.Tty.Scroll.{terminal_init_lem, terminal_scroll_lem}
use osd.Tty.Screen.{Keeps, terminal_putchar-Keeps, terminal_write-Keeps, tab_overrun}
use osd.Tty.Line.{terminal_write-line}
use osd.Tty.Screen.{NoTabs}
use osd.Tty.Page.{
  blank_page, put, next_line, forward, back, type_char, type_text, terminal_init-Shows,
}
use osd.Tty.Page.Typed.{After, terminal_write-After}

abbrev screen : Memory
screen a = 0

abbrev at_row : ℕ → ℕ → Terminal
at_row r c = record { row = r; column = c; color = 2; buffer = screen }

vga_entry_run : vga_entry b'A' (vga_entry_color green black) ≡ 0x0241
unfolding vga_entry
vga_entry_run = refl

decoded_run :
    let cell = vga_entry b'A' (vga_entry_color white blue) in
    (cell % 2 ^ 8 ≡ b'A') × (cell / 2 ^ 8 % 2 ^ 4 ≡ 15) × (cell / 2 ^ 12 ≡ 1)
decoded_run = vga_entry_lem b'A' white blue (omega arith)

terminal_init_run :
    ((terminal_init screen).row ≡ 0)
    × ((terminal_init screen).column ≡ 0)
    × ((terminal_init screen).buffer 1999
        ≡ (if ltb 1999 2000 then vga_entry b' ' (vga_entry_color green black) else 0))
terminal_init_run = terminal_init_lem screen 1999

terminal_scroll_lem_example :
    ((terminal_scroll (at_row 25 0)).row ≡ 24)
    × ((terminal_scroll (at_row 25 0)).column ≡ 0)
    × ((terminal_scroll (at_row 25 0)).color ≡ 2)
    × ((terminal_scroll (at_row 25 0)).buffer 1990
        ≡ (if ltb 1990 1920 then 0 else if ltb 1990 2000 then vga_entry b' ' 2 else 0))
terminal_scroll_lem_example = terminal_scroll_lem (at_row 25 0) 1990 refl

terminal_putchar-Keeps_example : Keeps (at_row 24 79) (terminal_putchar (at_row 24 79) b'x')
terminal_putchar-Keeps_example =
    terminal_putchar-Keeps (at_row 24 79) b'x' (omega arith) (omega arith)

terminal_write-Keeps_example :
    Keeps (at_row 24 79) (terminal_write (at_row 24 79) (b'x' ∷ b'\n' ∷ b'y' ∷ []))
terminal_write-Keeps_example =
    terminal_write-Keeps (at_row 24 79) (b'x' ∷ b'\n' ∷ b'y' ∷ []) (omega arith) (omega arith)

tab_overrun_example :
    (terminal_putchar (terminal_putchar (at_row 24 78) b'\t') b'x').buffer 2002 ≡ vga_entry b'x' 2
tab_overrun_example =
    tab_overrun (at_row 24 78) b'x' refl (omega arith) (omega arith)
      (omega arith, omega arith, omega arith)

line_run :
    let t' = terminal_write (at_row 3 10) (b'o' ∷ b'k' ∷ []) in
    (t'.row ≡ 3) × (t'.column ≡ 12) × (t'.color ≡ 2) × (t'.buffer 251 ≡ vga_entry b'k' 2)
line_run =
    terminal_write-line (at_row 3 10) (b'o' ∷ b'k' ∷ []) 251 (omega arith) (omega arith)
      (omega arith)

abbrev newlines : ℕ → List ℕ → List ℕ
newlines zero cs = cs
newlines (suc n) cs = b'\n' ∷ newlines n cs

-- After 25 newlines the text begins on the line below the screen, which scrolls.
abbrev text : List ℕ
text = newlines 25 (b'a' ∷ b'b' ∷ 8 ∷ b'c' ∷ [])

text-NoTabs : NoTabs text
text-NoTabs = omega arith

page_run : (type_text blank_page text).cell 25 1 ≡ b'c'
unfolding type_text type_char put next_line forward back blank_page
page_run = refl

terminal_write-After_example :
    After 0 (type_text blank_page text) (terminal_write (terminal_init screen) text)
terminal_write-After_example =
    terminal_write-After 0 blank_page (terminal_init screen) text (terminal_init-Shows screen)
      text-NoTabs
