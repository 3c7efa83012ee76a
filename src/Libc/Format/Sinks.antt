-- ===== src/Libc/Format/Sinks.antt =====
-- `printf` (libc/stdio/printf.c) on the terminal and `logf` (libc/stdio/logf.c) on the serial line.
use osd.Base.{
  Bool, true, false, ◌==◌, u8, Option, ◌>>=◌, ◌∷◌, [], ℕ, suc, ◌+◌, ◌≤◌, ◌<◌, Memory, List, ◌++◌,
  length, map, none, some,
}
use osd.Base.{
  ◌≡◌, ◌∙◌, sym, length-append, append-nil, append_assoc, ap, refl, arith, Option-cases, inl, inr,
}
use osd.Com.{com1, log}
use osd.Com.Log.{count_ready, log_lem, log-empty, log-append}
use osd.Tty.Screen.{terminal_putchar-u8, terminal_write-empty, terminal_write-append}
use osd.Tty.{Terminal, terminal_putchar, terminal_write}
use osd.Libc.Format.{
  int_max, eof, Argument, number_text, putchar, print, printf, puts, Line, log_line, logf,
}
use osd.Libc.Format.Render.{
  Renders, string, itself, finished, IsSink, format_from-fits, format_from-exceeds,
}

-- The terminal refuses no character: `putchar` returns it as an unsigned char, never `EOF`.
print_lem : (t : Terminal) (cs : List ℕ) → print t cs ≡ (terminal_write t cs, true)
unfolding print putchar terminal_write
print_lem t [] = refl
print_lem t (c ∷ cs) =
    let taken : u8 c == eof ≡ false = ground arith in
    rw (taken, terminal_putchar-u8 t c) (print_lem (terminal_putchar t c) cs)

abbrev prints : Terminal → List ℕ → Option (Terminal × Bool)
prints t cs = some (print t cs)

abbrev written : Terminal → List ℕ → Option Terminal
written t cs = some (terminal_write t cs)

taken_all : (t : Terminal) (cs : List ℕ) → prints t cs ≡ some (terminal_write t cs, true)
taken_all t cs = ap (λ (r : Terminal × Bool). some r) (print_lem t cs)

print-IsSink : IsSink prints written
print-IsSink = record {
  takes = taken_all;
  empty = λ s. ap (λ (t : Terminal). some t) (terminal_write-empty s);
  append = λ s a b. ap (λ (t : Terminal). some t) (terminal_write-append s a b);
}

-- Where the text that a format and its arguments stand for has at most `INT_MAX` characters,
-- `printf` returns their number, and the terminal has received exactly that text.
pub printf-Renders :
    (fuel : ℕ) (unknown : Memory) (t : Terminal) (format out : List ℕ) (args : List Argument)
    → Renders (number_text fuel unknown) format args out
    → length out ≤ int_max
    → printf fuel unknown t format args ≡ some (terminal_write t out, some (length out))
unfolding printf
printf-Renders fuel unknown t format out args r fits =
    format_from-fits _ prints written print-IsSink (suc (length format)) format out args 0 t r
      (omega arith) (omega arith)
    ∙ ap (λ (k : ℕ). some (terminal_write t out, some k)) (omega arith)

-- Where the text that a format and its arguments stand for has more than `INT_MAX` characters,
-- `printf` returns -1.
pub printf-exceeds :
    (fuel : ℕ) (unknown : Memory) (t : Terminal) (format out : List ℕ) (args : List Argument)
    → Renders (number_text fuel unknown) format args out
    → int_max < length out
    → (t' : Terminal) × (printf fuel unknown t format args ≡ some (t', none))
unfolding printf
printf-exceeds fuel unknown t format out args r over =
    format_from-exceeds _ prints (λ s cs. (terminal_write s cs, taken_all s cs))
      (suc (length format)) format out args 0 t r (omega arith) (omega arith) (omega arith)

-- For a string of less than `INT_MAX` characters `puts` writes it and a newline to the terminal, and
-- returns the number of both together.
pub puts_lem :
    (fuel : ℕ) (unknown : Memory) (t : Terminal) (str : List ℕ)
    → length str < int_max
    → puts fuel unknown t str ≡ some (terminal_write t (str ++ b'\n' ∷ []), some (length str + 1))
unfolding puts
puts_lem fuel unknown t str h =
    let size = length-append str (b'\n' ∷ []) in
    printf-Renders fuel unknown t _ (str ++ b'\n' ∷ []) _
      (string refl refl (itself (omega arith) finished)) (omega (arith, size))
    ∙ ap (λ (k : ℕ). some (terminal_write t (str ++ b'\n' ∷ []), some k)) size

from_zero : (n : ℕ) → 0 + n ≡ n
from_zero n = omega arith

logged : Line → List ℕ → Option Line
logged l cs = do r ← log l.reads cs; some (record { reads = r.0; sent = l.sent ++ r.1 })

log_line-IsSink : IsSink log_line logged
unfolding log_line logged
log_line-IsSink = record {
  takes =
      λ s cs. elim (Option-cases (log s.reads cs)) [ inl e ↦ rw e refl | inr (r, e) ↦ rw e refl ];
  empty = λ s.
      rw (log-empty s.reads)
        (ap (λ l. some (record { reads = s.reads; sent = l })) (append-nil s.sent));
  append = λ s a b. rw (log-append s.reads a b) (elim (Option-cases (log s.reads a)) [
    | inl e ↦ rw e refl
    | inr (r, e) ↦ rw e (elim (Option-cases (log r.0 b)) [
      | inl f ↦ rw f refl
      | inr (r', f) ↦
          rw f (
            ap (λ l. some (record { reads = r'.0; sent = l })) (sym (append_assoc s.sent r.1 r'.1)))
    ])
  ]);
}

-- Where the text that a format and its arguments stand for has at most `INT_MAX` characters, and the
-- line is ready in at least as many of the reads of its status, `logf` returns their number, has sent
-- exactly that text, in order, to the data port, and has used up one ready read for each character.
pub logf-Renders :
    (fuel : ℕ) (unknown : Memory) (l : Line) (format out : List ℕ) (args : List Argument)
    → Renders (number_text fuel unknown) format args out
    → length out ≤ int_max
    → length out ≤ count_ready l.reads
    → (later : List ℕ) × (logf fuel unknown l format args
        ≡ some (
          record { reads = later; sent = l.sent ++ map (λ c. (com1, c)) out },
          some (length out),
        ))
      × (count_ready later + length out ≡ count_ready l.reads)
unfolding logf logged
logf-Renders fuel unknown l format out args r fits ready =
    let (later, sent, rest) = log_lem l.reads out ready in
    (
      later,
      format_from-fits _ log_line logged log_line-IsSink (suc (length format)) format out args 0 l r
            (omega arith) (omega arith)
          ∙ rw (sent, from_zero (length out)) refl,
      rest,
    )
