-- ===== src/Libc/Format/Examples.antt =====
-- Instances of the theorems on `printf` and `logf`.
use osd.Base.{
  ◌+◌, ℕ, zero, suc, ◌^◌, ◌≤◌, ◌<◌, Memory, List, [], ◌∷◌, ◌++◌, length, length-append, map, some,
  none,
}
use osd.Base.{◌≡◌, refl, arith}
use osd.Tty.{Terminal, terminal_init, terminal_write}
use osd.Com.{com1}
use osd.Com.Log.{count_ready}
use osd.Libc.Format.{int_max, Argument, number, text, number_text, printf, puts, Line, logf}
use osd.Libc.Format.Render.{Renders, finished, itself, percent_sign, character, string}
use osd.Libc.Format.Sinks.{printf-Renders, printf-exceeds, logf-Renders, puts_lem}

abbrev unknown : Memory
unknown a = 7

abbrev screen : Terminal
screen = terminal_init unknown

-- The format `a%%%c%s`, its arguments, and the text.
abbrev sample_format : List ℕ
sample_format = b'a' ∷ b'%' ∷ b'%' ∷ b'%' ∷ b'c' ∷ b'%' ∷ b's' ∷ []

abbrev sample_arguments : List Argument
sample_arguments = number b'b' ∷ text (b'c' ∷ b'd' ∷ []) ∷ []

abbrev sample_text : List ℕ
sample_text = b'a' ∷ b'%' ∷ b'b' ∷ b'c' ∷ b'd' ∷ []

sample-Renders : Renders (number_text 50 unknown) sample_format sample_arguments sample_text
sample-Renders =
    itself (omega arith) (percent_sign refl refl (character refl refl (string refl refl finished)))

printf-Renders_example :
    printf 50 unknown screen sample_format sample_arguments
    ≡ some (terminal_write screen sample_text, some 5)
printf-Renders_example =
    printf-Renders 50 unknown screen sample_format sample_text sample_arguments sample-Renders
      (omega arith)

repeated : ℕ → ℕ → List ℕ
repeated c zero = []
repeated c (suc n) = c ∷ repeated c n

length-repeated : (c n : ℕ) → length (repeated c n) ≡ n
unfolding repeated
length-repeated c zero = refl
length-repeated c (suc n) = omega (arith, length-repeated c n)

-- `%s` with a string of 2 ^ 31 characters.
abbrev long_string : List ℕ
long_string = repeated b'a' (2 ^ 31)

long_string-exceeds : int_max < length (long_string ++ [])
long_string-exceeds = omega (arith, length-append long_string [], length-repeated b'a' (2 ^ 31))

printf-exceeds_example :
    (t : Terminal) × (printf 50 unknown screen (b'%' ∷ b's' ∷ []) (text long_string ∷ [])
      ≡ some (t, none))
printf-exceeds_example =
    printf-exceeds 50 unknown screen (b'%' ∷ b's' ∷ []) (long_string ++ []) (text long_string ∷ [])
      (string refl refl finished) long_string-exceeds

-- A line that is ready at every read.
abbrev ready_line : Line
ready_line = record { reads = 32 ∷ 32 ∷ 32 ∷ 32 ∷ 32 ∷ 32 ∷ []; sent = [] }

ready_line-often : 5 ≤ count_ready ready_line.reads
unfolding count_ready
ready_line-often = omega arith

logf-Renders_example :
    (later : List ℕ) × (logf 50 unknown ready_line sample_format sample_arguments
      ≡ some (record { reads = later; sent = map (λ c. (com1, c)) sample_text }, some 5))
    × (count_ready later + 5 ≡ count_ready ready_line.reads)
logf-Renders_example =
    logf-Renders 50 unknown ready_line sample_format sample_text sample_arguments sample-Renders
      (omega arith) ready_line-often

puts_run :
    puts 50 unknown screen (b'H' ∷ b'i' ∷ [])
    ≡ some (terminal_write screen (b'H' ∷ b'i' ∷ b'\n' ∷ []), some 3)
puts_run = puts_lem 50 unknown screen (b'H' ∷ b'i' ∷ []) (omega arith)
