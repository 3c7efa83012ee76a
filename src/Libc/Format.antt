-- ===== src/Libc/Format.antt =====
-- `putchar`, `printf`, `puts` and `logf` of libc/stdio. `printf` and `logf` have one text, but
-- for where the characters go: a parameter `emit` stands for `print` and `log`.
pub mod Render
pub mod Sinks
pub mod Numbers
pub mod Literal
mod Examples
use osd.Base.{ℕ, zero, suc, ◌+◌, ◌-◌, ◌^◌, u8, Memory, chars, List, [], ◌∷◌, ◌++◌, length}
use osd.Base.{Bool, true, false, Option, none, some, ◌>>=◌, ltb, ◌==◌, if◌then◌else◌}
use osd.Libc.Str.{strlen}
use osd.Libc.Itoa.{itoa}
use osd.Com.{log}
use osd.Tty.{Terminal, terminal_putchar}

-- `INT_MAX`
abbrev pub int_max : ℕ
int_max = 2 ^ 31 - 1

-- An argument of a call: a 32-bit word, or a string by its characters before the zero.
pub data Argument : Type 0 where
  number : ℕ → Argument
  text : List ℕ → Argument

-- The text that `itoa` leaves in a buffer of 12 characters, of unknown content before the call.
pub number_text : ℕ → Memory → ℕ → ℕ → Option (List ℕ)
number_text fuel unknown radix num = do
  str ← itoa fuel num unknown radix
  len ← strlen fuel str 0
  some (chars str 0 len)

-- The characters up to the next `%`, and what is left from there.
pub plain : List ℕ → List ℕ
plain [] = []
plain (c ∷ cs) = if c == b'%' then [] else c ∷ plain cs

pub after_plain : List ℕ → List ℕ
after_plain [] = []
after_plain (c ∷ cs) = if c == b'%' then c ∷ cs else after_plain cs

-- What one round of the loop prints, the format left, and the arguments left.
abbrev pub Piece : Type 0
Piece = List ℕ × (List ℕ × List Argument)

-- `none` where the call has no argument of the kind that the format asks for; the C code then has
-- undefined behaviour.
pub with_number : (ℕ → Option (List ℕ)) → List ℕ → List Argument → Option Piece
with_number print cs (number x ∷ later) = print x >>= λ t. some (t, (cs, later))
with_number print cs (text t ∷ later) = none
with_number print cs [] = none

pub with_text : List ℕ → List Argument → Option Piece
with_text cs (text t ∷ later) = some (t, (cs, later))
with_text cs (number x ∷ later) = none
with_text cs [] = none

-- `text_of radix num` is the text of a number; `printf` and `logf` take `number_text`.
module _ (text_of : ℕ → ℕ → Option (List ℕ)) where
  -- The character after a lone `%`.
  pub directive : ℕ → List ℕ → List Argument → Option Piece
  directive d cs args =
      if d == b'c'
      then with_number (λ x. some (u8 x ∷ [])) cs args
      else if d == b's'
      then with_text cs args
      else if d == b'd'
      then with_number (text_of 10) cs args
      else if d == b'x'
      then with_number (text_of 16) cs args
      else if d == b'o'
      then with_number (text_of 8) cs args
      else some (d ∷ cs, ([], args))

  -- The format from a `%` on, less the `%`.
  pub percent : List ℕ → List Argument → Option Piece
  percent [] args = some ([], ([], args))
  percent (d ∷ cs) args =
      if d == b'%' then some (d ∷ plain cs, (after_plain cs, args)) else directive d cs args

  pub next_piece : ℕ → List ℕ → List Argument → Option Piece
  next_piece c cs args =
      if c == b'%' then percent cs args else some (c ∷ plain cs, (after_plain cs, args))

  -- The loop of both functions. `emit` returns the new state, and whether the device took the text;
  -- `log`, which returns nothing, always does. `n` is `bytes_written`; the result is the state of the device and
  -- the value returned, where `none` inside is -1. `none` outside means that the loop runs for more
  -- than `fuel` rounds, that the device waits for ever, or that an argument is missing.
  pub format_from {ℓ} :
      {S : Type ℓ} (emit : S → List ℕ → Option (S × Bool))
      → ℕ
      → List ℕ
      → List Argument
      → ℕ
      → S
      → Option (S × Option ℕ)
  format_from emit zero cs args n s = none
  format_from emit (suc fuel) [] args n s = some (s, some n)
  format_from emit (suc fuel) (c ∷ cs) args n s = next_piece c cs args >>= λ piece.
      if ltb (int_max - n) (length piece.0)
      then some (s, none)
      else emit s piece.0 >>= λ r.
          if r.1
          then format_from emit fuel piece.1.0 piece.1.1 (n + length piece.0) r.0
          else some (r.0, none)

-- `EOF`, which is -1.
abbrev pub eof : ℕ
eof = 2 ^ 32 - 1

-- As the kernel's library compiles it: the terminal, and the value returned.
pub putchar : Terminal → ℕ → Terminal × ℕ
putchar t ch = let character = u8 ch in (terminal_putchar t character, character)

-- Prints up to the first character that `putchar` refuses.
pub print : Terminal → List ℕ → Terminal × Bool
print t [] = (t, true)
print t (c ∷ cs) = let r = putchar t c in if r.1 == eof then (r.0, false) else print r.0 cs

pub printf : ℕ → Memory → Terminal → List ℕ → List Argument → Option (Terminal × Option ℕ)
printf fuel unknown t format args =
    format_from (number_text fuel unknown) (λ s cs. some (print s cs)) (suc (length format)) format
      args 0 t

pub puts : ℕ → Memory → Terminal → List ℕ → Option (Terminal × Option ℕ)
puts fuel unknown t str = printf fuel unknown t (b'%' ∷ b's' ∷ b'\n' ∷ []) (text str ∷ [])

-- What the status reads of the line are still to return, and what has been sent.
pub record Line : Type 0 where
  pub reads : List ℕ
  pub sent : List (ℕ × ℕ)

pub log_line : Line → List ℕ → Option (Line × Bool)
log_line l cs = do r ← log l.reads cs; some (record { reads = r.0; sent = l.sent ++ r.1 }, true)

pub logf : ℕ → Memory → Line → List ℕ → List Argument → Option (Line × Option ℕ)
logf fuel unknown l format args =
    format_from (number_text fuel unknown) log_line (suc (length format)) format args 0 l
