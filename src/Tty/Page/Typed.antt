-- ===== src/Tty/Page/Typed.antt =====
-- `terminal_write` of lumos/arch/i386/tty.c types on the page that the screen shows.
use osd.Base.{ℕ, ◌+◌, ◌-◌, ◌*◌, ◌≤◌, ◌<◌, u8, u32, store, List, [], ◌∷◌, arith}
use osd.Base.{false, Bool-cases, ◌≡◌, ◌≢◌, ◌∙◌, refl, inl, inr, leb, ◌==◌, if◌then◌else◌}
use osd.Tty.{
  Terminal, terminal_scroll, terminal_putchar, terminal_write, newline, tab, backspace, put_visible,
  advance, vga_entry, cursor,
}
use osd.Tty.Scroll.{terminal_scroll_lem}
use osd.Tty.Screen.{NoTabs}
use osd.Tty.Page.{Page, Shows, put, next_line, forward, back, type_char, type_text}

-- Scrolling moves the screen one line down the page.
scroll-Shows :
    (top : ℕ) (p : Page) (t : Terminal)
    → t.row ≡ 25
    → Shows top p t
    → Shows (top + 1) p (terminal_scroll t) × ((terminal_scroll t).row ≡ 24)
scroll-Shows top p t full s =
    let at = terminal_scroll_lem t 0 full in
    (
      record {
        row = omega (arith, s.row, at.0);
        row_in = omega (arith, at.0);
        column = at.1 ∙ s.column;
        column_in = omega (arith, at.1, s.column_in);
        cells = moved at.2;
        below = λ l x h. s.below l x (omega arith);
        latest = inr (omega (arith, s.row));
      },
      at.0,
    )
  where
    moved :
        (terminal_scroll t).color ≡ t.color
        → (y x : ℕ) → y < 25
        → x < 80
        → (terminal_scroll t).buffer (y * 80 + x)
          ≡ vga_entry (p.cell (top + 1 + y) x) (terminal_scroll t).color
    moved same y x h k = rw same (elim (Bool-cases (leb 24 y)) [
      | inl last ↦ ground (arith, terminal_scroll_lem t (y * 80 + x) full, s.below (top + 1 + y) x)
      | inr above ↦ ground (arith, terminal_scroll_lem t (y * 80 + x) full, s.cells (y + 1) x)
    ])

-- What a character leaves on the screen: the same page typed on, and the screen further down or
-- where it was.
pub record After (top : ℕ) (p : Page) (t : Terminal) : Type 0 where
  pub now : ℕ
  pub onward : top ≤ now
  pub shows : Shows now p t

stays : {top : ℕ} {p : Page} {t : Terminal} → Shows top p t → After top p t
stays {top} s = record { now = top; onward = omega arith; shows = s }

module _ (top : ℕ) (p : Page) (t : Terminal) (s : Shows top p t) (room : t.row < 25) where
  put-Shows :
      (c : ℕ)
      → Shows top (put p c) (record t { buffer = store t.buffer (cursor t) (vga_entry c t.color) })
  unfolding put
  put-Shows c = record {
    row = s.row;
    row_in = s.row_in;
    column = s.column;
    column_in = s.column_in;
    cells = λ y x h k. ground (arith, s.cells y x h k, s.row, s.column, s.column_in);
    below = λ l x h. ground (arith, s.below l x h, s.row);
    latest = s.latest;
  }

  -- The terminal at the start of the next line.
  lower : Terminal
  lower = record t { row = t.row + 1; column = 0 }

  lower-Shows : Shows top (next_line p) lower
  unfolding next_line lower
  lower-Shows = record {
    row = omega (arith, s.row);
    row_in = omega arith;
    column = refl;
    column_in = omega arith;
    cells = s.cells;
    below = s.below;
    latest = elim s.latest [ inl e ↦ inl e | inr e ↦ inr (omega (arith, e)) ];
  }

  newline-Shows : Shows top (next_line p) (newline t)
  unfolding newline lower
  newline-Shows = let down : u32 (t.row + 1) ≡ t.row + 1 = omega arith in rw down lower-Shows

  back-Shows : Shows top (back p) (record t { column = t.column - 1 })
  unfolding back
  back-Shows = record {
    row = s.row;
    row_in = s.row_in;
    column = omega (arith, s.column);
    column_in = omega (arith, s.column_in);
    cells = s.cells;
    below = s.below;
    latest = s.latest;
  }

  forward-After : After top (forward p) (advance t)
  unfolding forward advance lower
  forward-After =
      let next : u32 (t.column + 1) ≡ t.column + 1 = omega (arith, s.column_in) in
      let down : u32 (t.row + 1) ≡ t.row + 1 = omega arith in
      let same : leb 80 (p.column + 1) ≡ leb 80 (t.column + 1) = ground (arith, s.column) in
      rw (next, down, same)
        (elim (Bool-cases (leb 80 (t.column + 1))) [
          | inl full ↦ elim (Bool-cases (leb 25 (t.row + 1))) [
            | inl last ↦
                rw (full, last)
                  (record {
                    now = top + 1;
                    onward = omega arith;
                    shows =
                        (scroll-Shows top (next_line p) lower (ground (arith, last)) lower-Shows).0;
                  })
            | inr above ↦ rw (full, above) (stays lower-Shows)
          ]
          | inr inside ↦ rw inside (
              stays (record {
                row = s.row;
                row_in = s.row_in;
                column = omega (arith, s.column);
                column_in = ground (arith, inside);
                cells = s.cells;
                below = s.below;
                latest = s.latest;
              }))
        ])

module _ (top : ℕ) (p : Page) (t : Terminal) (s : Shows top p t) (room : t.row < 25) where
  backspace-Shows : Shows top (put (back p) b' ') (backspace t)
  unfolding backspace
  backspace-Shows =
      let same : (if t.column == 0 then 0 else t.column - 1) ≡ t.column - 1 = ground arith in
      rw same (
        put-Shows top (back p) (record t { column = t.column - 1 }) (back-Shows top p t s room) room
          b' ')

  dispatch-After :
      (c : ℕ)
      → c ≢ b'\t'
      → After top (type_char p c) (
          if c == b'\n'
          then newline t
          else if c == b'\t'
          then tab t
          else if c == 8
          then backspace t
          else put_visible t c)
  unfolding type_char put_visible
  dispatch-After c ne = elim (Bool-cases (c == b'\n')) [
    | inl nl ↦ rw nl (stays (newline-Shows top p t s room))
    | inr plain ↦
        let no_tab : c == b'\t' ≡ false = ground arith in
        elim (Bool-cases (c == 8)) [
          | inl bs ↦ rw (plain, no_tab, bs) (stays backspace-Shows)
          | inr other ↦
              rw (plain, no_tab, other)
                (forward-After top (put p c) _ (put-Shows top p t s room c) room)
        ]
  ]

putchar-After :
    (top : ℕ) (p : Page) (t : Terminal) (ch : ℕ)
    → Shows top p t
    → u8 ch ≢ b'\t'
    → After top (type_char p (u8 ch)) (terminal_putchar t ch)
unfolding terminal_putchar
putchar-After top p t ch s ne = elim (Bool-cases (t.row == 25)) [
  | inl full ↦
      let (down, at) = scroll-Shows top p t (ground arith) s in
      let r = dispatch-After (top + 1) p (terminal_scroll t) down (omega (arith, at)) (u8 ch) ne in
      rw full (record { now = r.now; onward = omega (arith, r.onward); shows = r.shows })
  | inr room ↦ rw room (dispatch-After top p t s (ground (arith, s.row_in)) (u8 ch) ne)
]

-- Where the screen shows the lines of a page from some line on, it shows after any text without tabs
-- the page with the text typed on it, line breaks at the width and backspaces included, from that line
-- or from a later one: no character has been typed below the screen, and lines have left it at the
-- top only if the text came to its last line.
pub terminal_write-After :
    (top : ℕ) (p : Page) (t : Terminal) (cs : List ℕ)
    → Shows top p t
    → NoTabs cs
    → After top (type_text p cs) (terminal_write t cs)
unfolding type_text terminal_write
terminal_write-After top p t [] s n = stays s
terminal_write-After top p t (c ∷ cs) s n =
    let first = putchar-After top p t c s n.0 in
    let rest =
      terminal_write-After first.now (type_char p (u8 c)) (terminal_putchar t c) cs first.shows
        n.1 in
    record { now = rest.now; onward = omega (arith, first.onward, rest.onward); shows = rest.shows }
