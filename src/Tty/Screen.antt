-- ===== src/Tty/Screen.antt =====
-- `terminal_putchar` and `terminal_write` of lumos/arch/i386/tty.c: what stays on the screen.
use osd.Base.{ℕ, ◌+◌, ◌≤◌, ◌<◌, u8, u32, Memory, store, arith, List, [], ◌∷◌, ◌++◌}
use osd.Base.{true, false, Bool-cases, inl, inr, ◌≡◌, ◌≢◌, ◌∙◌, refl, leb, ◌==◌, if◌then◌else◌}
use osd.Tty.{Terminal, terminal_scroll, terminal_putchar, terminal_write, newline, tab, backspace}
use osd.Libc.Str.Laws.{strlen_lem}
use osd.Base.{chars, some}
use osd.Tty.{terminal_writestring, put_visible, advance, vga_entry, cursor}
use osd.Tty.Scroll.{terminal_scroll_lem}

-- The cursor is on the screen, or on the line below the last one after a newline there.
pub record IsOnScreen (t : Terminal) : Type 0 where
  pub row_in : t.row ≤ 25
  pub column_in : t.column < 80

-- A step of the terminal that keeps its cursor on the screen and writes only on the screen.
pub record Keeps (t t' : Terminal) : Type 0 where
  pub on_screen : IsOnScreen t'
  pub color : t'.color ≡ t.color
  pub outside : (a : ℕ) → 2000 ≤ a → t'.buffer a ≡ t.buffer a

scroll-Keeps :
    (t : Terminal)
    → t.row ≡ 25
    → t.column < 80
    → Keeps t (terminal_scroll t) × ((terminal_scroll t).row ≡ 24)
scroll-Keeps t full col =
    let at = terminal_scroll_lem t 0 full in
    (
      record {
        on_screen = omega (arith, at);
        color = at.2;
        outside = λ a h. ground (arith, terminal_scroll_lem t a full);
      },
      at.0,
    )

module _ (t : Terminal) (row_in : t.row < 25) (col : t.column < 80) where
  newline-Keeps : Keeps t (newline t)
  unfolding newline
  newline-Keeps = record { on_screen = omega arith; color = refl; outside = λ a h. refl }

  backspace-Keeps : Keeps t (backspace t)
  unfolding backspace
  backspace-Keeps = record { on_screen = ground arith; color = refl; outside = λ a h. ground arith }

  advance-Keeps : Keeps t (advance t)
  unfolding advance
  advance-Keeps =
      let e : u32 (t.column + 1) ≡ t.column + 1 = omega arith in
      let f : u32 (t.row + 1) ≡ t.row + 1 = omega arith in
      elim (Bool-cases (leb 80 (t.column + 1))) [
        | inl full ↦ elim (Bool-cases (leb 25 (t.row + 1))) [
          | inl last ↦ rw (e, f, full, last) (wrapped (ground arith))
          | inr room ↦
              rw (e, f, full, room)
                (record { on_screen = ground arith; color = refl; outside = λ a h. refl })
        ]
        | inr inside ↦
            rw (e, inside)
              (record { on_screen = ground arith; color = refl; outside = λ a h. refl })
      ]
    where
      below : Terminal
      below = record t { column = 0; row = t.row + 1 }

      wrapped : t.row + 1 ≡ 25 → Keeps t (terminal_scroll below)
      wrapped full =
          let k = (scroll-Keeps below full (omega arith)).0 in
          record { on_screen = k.on_screen; color = k.color; outside = k.outside }

Keeps-trans : (r s t : Terminal) → Keeps r s → Keeps s t → Keeps r t
Keeps-trans r s t h k = record {
  on_screen = k.on_screen;
  color = k.color ∙ h.color;
  outside = λ a p. k.outside a p ∙ h.outside a p;
}

put_visible-Keeps : (t : Terminal) (c : ℕ) → t.row < 25 → t.column < 80 → Keeps t (put_visible t c)
unfolding put_visible
put_visible-Keeps t c row_in col =
    let written = record t { buffer = store t.buffer (cursor t) (vga_entry c t.color) } in
    Keeps-trans t written (advance written)
      (record { on_screen = omega arith; color = refl; outside = λ a h. ground arith })
      (advance-Keeps written row_in col)

dispatch-Keeps :
    (t : Terminal) (c : ℕ)
    → t.row < 25
    → t.column < 80
    → c ≢ b'\t'
    → Keeps t (
        if c == b'\n'
        then newline t
        else if c == b'\t'
        then tab t
        else if c == 8
        then backspace t
        else put_visible t c)
dispatch-Keeps t c row_in col ne = elim (Bool-cases (c == b'\n')) [
  | inl nl ↦ rw nl (newline-Keeps t row_in col)
  | inr visible ↦
      let no_tab : c == b'\t' ≡ false = ground arith in
      elim (Bool-cases (c == 8)) [
        | inl bs ↦ rw (visible, no_tab, bs) (backspace-Keeps t row_in col)
        | inr other ↦ rw (visible, no_tab, other) (put_visible-Keeps t c row_in col)
      ]
]

-- Any character but a tab leaves the cursor on the screen and every cell outside it alone.
pub terminal_putchar-Keeps :
    (t : Terminal) (c : ℕ) → IsOnScreen t → u8 c ≢ b'\t' → Keeps t (terminal_putchar t c)
unfolding terminal_putchar
terminal_putchar-Keeps t c v ne = elim (Bool-cases (t.row == 25)) [
  | inl low ↦
      let s = scroll-Keeps t (ground arith) v.column_in in
      rw low (
        Keeps-trans t (terminal_scroll t) _ s.0 (
          dispatch-Keeps (terminal_scroll t) (u8 c) (omega (arith, s.1)) s.0.on_screen.column_in
            ne))
  | inr high ↦ rw high (dispatch-Keeps t (u8 c) (ground (arith, v.row_in)) v.column_in ne)
]

abbrev pub NoTabs : List ℕ → Type 0
NoTabs [] = Unit {0}
NoTabs (c ∷ cs) = (u8 c ≢ b'\t') × NoTabs cs

-- From a cursor on the screen, text without tabs never writes outside the screen, however long it
-- is, and leaves the cursor on the screen.
pub terminal_write-Keeps :
    (t : Terminal) (cs : List ℕ) → IsOnScreen t → NoTabs cs → Keeps t (terminal_write t cs)
unfolding terminal_write
terminal_write-Keeps t [] v n = record { on_screen = v; color = refl; outside = λ a h. refl }
terminal_write-Keeps t (c ∷ cs) v n =
    let first = terminal_putchar-Keeps t c v n.0 in
    Keeps-trans t (terminal_putchar t c) _ first
      (terminal_write-Keeps (terminal_putchar t c) cs first.on_screen n.1)

putchar-tab : (t : Terminal) → t.row < 25 → terminal_putchar t b'\t' ≡ tab t
unfolding terminal_putchar
putchar-tab t row = let high : t.row == 25 ≡ false = ground arith in rw high

pub putchar-visible :
    (t : Terminal) (c : ℕ)
    → t.row < 25
    → (u8 c ≢ b'\n') × (u8 c ≢ b'\t') × (u8 c ≢ 8)
    → terminal_putchar t c ≡ put_visible t (u8 c)
unfolding terminal_putchar
putchar-visible t c row plain =
    let high : t.row == 25 ≡ false = ground arith in
    let n : u8 c == b'\n' ≡ false = ground arith in
    let h : u8 c == b'\t' ≡ false = ground arith in
    let b : u8 c == 8 ≡ false = ground arith in rw (high, n, h, b)

pub advance-inside :
    (t : Terminal) → t.column + 1 < 80 → advance t ≡ record t { column = t.column + 1 }
unfolding advance
advance-inside t inside =
    let e : u32 (t.column + 1) ≡ t.column + 1 = omega arith in
    let f : leb 80 (t.column + 1) ≡ false = ground arith in rw (e, f)

advance-last :
    (t : Terminal)
    → t.row ≡ 24
    → 79 ≤ t.column
    → t.column < 100
    → advance t ≡ terminal_scroll (record t { column = 0; row = 25 })
unfolding advance
advance-last t row lo hi =
    let e : u32 (t.column + 1) ≡ t.column + 1 = omega arith in
    let f : leb 80 (t.column + 1) ≡ true = ground arith in
    let g : u32 (t.row + 1) ≡ 25 = omega arith in rw (e, f, g)

-- A tab is not bounded by the width: after a tab in one of the last four columns of the last line,
-- the next visible character is written past the end of the screen.
pub tab_overrun :
    (t : Terminal) (c : ℕ)
    → t.row ≡ 24
    → 76 ≤ t.column
    → t.column < 80
    → (u8 c ≢ b'\n') × (u8 c ≢ b'\t') × (u8 c ≢ 8)
    → let t' = terminal_putchar (terminal_putchar t b'\t') c in
      t'.buffer (1924 + t.column) ≡ vga_entry (u8 c) t.color
unfolding put_visible tab
tab_overrun t c row lo hi plain =
    let next : u32 (t.column + 4) ≡ t.column + 4 = omega arith in
    let there = record t { column = t.column + 4 } in
    let at : cursor there ≡ 1924 + t.column = omega arith in
    let written = record there {
      buffer = store t.buffer (cursor there) (vga_entry (u8 c) t.color);
    } in
    let below = record written { column = 0; row = 25 } in
    rw (putchar-tab t (omega arith), next, putchar-visible there c (omega arith) plain)
      (rw (advance-last written row (omega arith) (omega arith))
        (ground (arith, terminal_scroll_lem below (1924 + t.column) refl)))

pub terminal_putchar-u8 : (t : Terminal) (c : ℕ) → terminal_putchar t (u8 c) ≡ terminal_putchar t c
unfolding terminal_putchar
terminal_putchar-u8 t c = let same : u8 (u8 c) ≡ u8 c = omega arith in rw same refl

pub terminal_write-empty : (t : Terminal) → terminal_write t [] ≡ t
unfolding terminal_write
terminal_write-empty t = refl

-- A text in two parts leaves what the whole text leaves.
pub terminal_write-append :
    (t : Terminal) (a b : List ℕ)
    → terminal_write t (a ++ b) ≡ terminal_write (terminal_write t a) b
unfolding terminal_write
terminal_write-append t [] b = refl
terminal_write-append t (c ∷ a) b = terminal_write-append (terminal_putchar t c) a b

-- With fuel above its length, the string is written up to its first zero, and no further.
pub terminal_writestring_lem :
    (fuel : ℕ) (m : Memory) (t : Terminal) (str len : ℕ)
    → len < fuel
    → m (str + len) ≡ 0
    → ((j : ℕ) → j < len → m (str + j) ≢ 0)
    → terminal_writestring fuel m t str ≡ some (terminal_write t (chars m str len))
unfolding terminal_writestring
terminal_writestring_lem fuel m t str len enough end before =
    rw (strlen_lem fuel m str len enough end before) refl
