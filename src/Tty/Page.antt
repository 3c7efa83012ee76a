-- ===== src/Tty/Page.antt =====
-- What a reader of the terminal of lumos/arch/i386/tty.c sees: the last lines of a page without end.
pub mod Typed
use osd.Base.{ℕ, ◌+◌, ◌-◌, ◌*◌, ◌^◌, ◌≤◌, ◌<◌, u8, u32, store, Memory, List, [], ◌∷◌, arith}
use osd.Base.{
  Bool, true, false, Bool-cases, ◌≡◌, ◌≢◌, ◌⊎◌, ◌∙◌, sym, refl, inl, inr, leb, ◌==◌, ◌&&◌,
  if◌then◌else◌,
}
use osd.Tty.{
  Terminal, terminal_init, terminal_scroll, terminal_putchar, terminal_write, newline, backspace,
  put_visible, advance, vga_entry, cursor,
}
use osd.Tty.Scroll.{terminal_init_lem, terminal_scroll_lem}
use osd.Tty.Screen.{NoTabs}

-- Lines of 80 characters without end, and the place of the next character.
pub record Page : Type 0 where
  pub line : ℕ
  pub column : ℕ
  pub cell : ℕ → ℕ → ℕ

unfoldable pub blank_page : Page
blank_page = record { line = 0; column = 0; cell = λ l x. b' ' }

unfoldable pub put : Page → ℕ → Page
put p c = record p { cell = λ l x. if (l == p.line) && (x == p.column) then c else p.cell l x }

unfoldable pub next_line : Page → Page
next_line p = record p { line = p.line + 1; column = 0 }

-- The place after a character: at the end of a line, the next line.
unfoldable pub forward : Page → Page
forward p = if leb 80 (p.column + 1) then next_line p else record p { column = p.column + 1 }

-- The place before, in the same line.
unfoldable pub back : Page → Page
back p = record p { column = p.column - 1 }

unfoldable pub type_char : Page → ℕ → Page
type_char p c =
    if c == b'\n' then next_line p else if c == 8 then put (back p) b' ' else forward (put p c)

unfoldable pub type_text : Page → List ℕ → Page
type_text p [] = p
type_text p (c ∷ cs) = type_text (type_char p (u8 c)) cs

-- The screen shows the 25 lines of the page from `top` on, all in the colour in use. No character
-- has been typed below them, and as long as the cursor has not come to the last of them they are the
-- first lines of the page. The cursor may be on the line below the screen, after a newline.
pub record Shows (top : ℕ) (p : Page) (t : Terminal) : Type 0 where
  pub row : p.line ≡ top + t.row
  pub row_in : t.row ≤ 25
  pub column : t.column ≡ p.column
  pub column_in : t.column < 80
  pub cells :
      (y x : ℕ) → y < 25 → x < 80 → t.buffer (y * 80 + x) ≡ vga_entry (p.cell (top + y) x) t.color
  pub below : (l x : ℕ) → top + 25 ≤ l → p.cell l x ≡ b' '
  pub latest : (top ≡ 0) ⊎ (top + 24 ≤ p.line)

pub terminal_init-Shows : (b : Memory) → Shows 0 blank_page (terminal_init b)
unfolding blank_page terminal_init
terminal_init-Shows b = record {
  row = omega arith;
  row_in = omega arith;
  column = refl;
  column_in = omega arith;
  cells = λ y x h k. (terminal_init_lem b (y * 80 + x)).2 ∙ ground arith;
  below = λ l x h. refl;
  latest = inl refl;
}
