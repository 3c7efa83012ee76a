-- ===== src/Libc/Format/Literal.antt =====
-- Formats with runs of plain text, for the messages that the kernel prints with `printf`
-- (libc/stdio/printf.c).
use osd.Base.{ℕ, ◌^◌, ◌<◌, Memory, List, [], ◌∷◌, ◌++◌, length}
use osd.Base.{Option, some, Bool, true, Bool-cases, ==_iff, ◌==◌, not, ◌&&◌, if◌then◌else◌}
use osd.Base.{◌≡◌, inl, inr, refl, arith}
use osd.Libc.Format.{Argument, number_text}
use osd.Libc.Format.Render.{Renders, finished, itself}
use osd.Libc.Itoa.Width.{IsPrintfRadix}
use osd.Libc.Format.Numbers.{IsNumberText, is_negative, number_text-IsNumberText}

abbrev pub is_literal : List ℕ → Bool
is_literal [] = true
is_literal (c ∷ cs) = not (c == b'%') && is_literal cs

-- A run of characters without `%` stands for itself.
pub literal :
    {text_of : ℕ → ℕ → Option (List ℕ)} (cs : List ℕ) {rest t : List ℕ} {args : List Argument}
    → is_literal cs ≡ true
    → Renders text_of rest args t
    → Renders text_of (cs ++ rest) args (cs ++ t)
literal [] e r = r
literal (c ∷ cs) e r = elim (Bool-cases (c == b'%')) [
  | inl p ↦ cc (rw p at e)
  | inr p ↦ itself (λ q. cc (p, (==_iff c b'%').1 q)) (literal cs (rw p at e) r)
]

-- A format without `%` stands for itself.
pub only :
    {text_of : ℕ → ℕ → Option (List ℕ)} (cs : List ℕ) {args : List Argument}
    → is_literal cs ≡ true
    → Renders text_of cs args cs
only [] e = finished
only (c ∷ cs) e = elim (Bool-cases (c == b'%')) [
  | inl p ↦ cc (rw p at e)
  | inr p ↦ itself (λ q. cc (p, (==_iff c b'%').1 q)) (only cs (rw p at e))
]

-- The text of a 32-bit number, with what is known of it.
pub record Shown (fuel : ℕ) (unknown : Memory) (radix num : ℕ) : Type 0 where
  pub out : List ℕ
  pub returned : number_text fuel unknown radix num ≡ some out
  pub reads : IsNumberText radix num (some out)
  pub short : length out < 12

module _ (fuel : ℕ) (unknown : Memory) (radix num : ℕ) where
  pub shown : IsPrintfRadix radix → num < 2 ^ 32 → 2 ^ 32 < fuel → Shown fuel unknown radix num
  shown r h f =
      let k = number_text-IsNumberText fuel unknown radix num r h f in
      let sign : List ℕ = if is_negative radix num then b'-' ∷ [] else [] in
      record {
        out = sign ++ k.digits;
        returned = k.returned;
        reads = record { digits = k.digits; returned = refl; value = k.value; short = k.short };
        short = elim (Bool-cases (is_negative radix num)) [
          | inl e ↦ rw e (omega (arith, rw e at k.short))
          | inr e ↦ rw e (omega (arith, rw e at k.short))
        ];
      }
