-- ===== src/Tty/Line.antt =====
-- Text within one line of the screen (lumos/arch/i386/tty.c).
use osd.Base.{ℕ, ◌+◌, ◌-◌, ◌*◌, ◌<◌, u8, Memory, store, arith, List, [], ◌∷◌, length}
use osd.Base.{
  get_or-cons, ap, Bool-cases, inl, inr, ◌≡◌, ◌≢◌, ◌∙◌, ltb, leb, ◌==◌, ◌&&◌, if◌then◌else◌, get_or,
}
use osd.Tty.{Terminal, terminal_write}
use osd.Tty.{put_visible, vga_entry, cursor}
use osd.Tty.Screen.{putchar-visible, advance-inside}

abbrev pub Visible : List ℕ → Type 0
Visible [] = Unit {0}
Visible (c ∷ cs) = ((u8 c ≢ b'\n') × (u8 c ≢ b'\t') × (u8 c ≢ 8)) × Visible cs

-- The terminal after a visible character that does not fill its line.
abbrev typed : Terminal → ℕ → Terminal
typed t c = record t {
  column = t.column + 1;
  buffer = store t.buffer (cursor t) (vga_entry (u8 c) t.color);
}

write-cons :
    (t : Terminal) (c : ℕ) (cs : List ℕ)
    → t.row < 25
    → t.column + 1 < 80
    → (u8 c ≢ b'\n') × (u8 c ≢ b'\t') × (u8 c ≢ 8)
    → terminal_write t (c ∷ cs) ≡ terminal_write (typed t c) cs
unfolding terminal_write put_visible
write-cons t c cs row fits plain =
    ap (λ x. terminal_write x cs) (putchar-visible t c row plain ∙ advance-inside _ fits)

-- What lies at index `a` after a text in the cells from `at` on, each character by `glyph`.
abbrev pub line : (ℕ → ℕ) → List ℕ → ℕ → ℕ → ℕ → ℕ
line glyph cs at a old =
    if leb at a && ltb a (at + length cs) then glyph (get_or cs (a - at) 0) else old

line-cons :
    (glyph : ℕ → ℕ) (c : ℕ) (cs : List ℕ) (at a : ℕ) (b : Memory)
    → line glyph cs (at + 1) a (store b at (glyph c) a) ≡ line glyph (c ∷ cs) at a (b a)
line-cons glyph c cs at a b = elim (Bool-cases (a == at)) [
  | inl same ↦ let first : a - at ≡ 0 = ground arith in rw (same, first) (ground arith)
  | inr differ ↦ ground (arith, get_or-cons c cs (a - at) 0)
]

write-nil :
    (t : Terminal) (a : ℕ)
    → let t' = terminal_write t [] in
      let at = t.row * 80 + t.column in
      (t'.row ≡ t.row)
      × (t'.column ≡ t.column + 0)
      × (t'.color ≡ t.color)
      × (t'.buffer a ≡ (line (λ d. vga_entry (u8 d) t.color) [] at a (t.buffer a)))
unfolding terminal_write
write-nil t a = ground arith

-- With the cursor on the screen, the visible characters of a text that leaves a column free at the
-- end of the line come one after the other in that line, in the colour in use, and nothing else
-- changes but the column.
pub terminal_write-line :
    (t : Terminal) (cs : List ℕ) (a : ℕ)
    → t.row < 25
    → t.column + length cs < 80
    → Visible cs
    → let t' = terminal_write t cs in
      let at = t.row * 80 + t.column in
      (t'.row ≡ t.row)
      × (t'.column ≡ t.column + length cs)
      × (t'.color ≡ t.color)
      × (t'.buffer a ≡ line (λ d. vga_entry (u8 d) t.color) cs at a (t.buffer a))
terminal_write-line t [] a row fits v = write-nil t a
terminal_write-line t (c ∷ cs) a row fits v =
    let next = typed t c in
    let rest = terminal_write-line next cs a row (omega arith) v.1 in
    let here = t.row * 80 + t.column in
    let at : cursor t ≡ here = omega arith in
    let after : t.row * 80 + (t.column + 1) ≡ here + 1 = omega arith in
    let glyph = λ (d : ℕ). vga_entry (u8 d) t.color in
    rw (write-cons t c cs row (omega arith) v.0) (
      omega (arith, rest.0),
      omega (arith, rest.1),
      rest.2,
      rest.3
          ∙ ap (λ p. line glyph cs p a (store t.buffer (cursor t) (glyph c) a)) after
          ∙ ap (λ p. line glyph cs (here + 1) a (store t.buffer p (glyph c) a)) at
          ∙ line-cons glyph c cs here a t.buffer,
    )
