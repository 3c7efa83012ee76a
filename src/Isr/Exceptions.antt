-- ===== src/Isr/Exceptions.antt =====
-- The messages of lumos/arch/i386/isr.c on the screen.
use osd.Base.{ℕ, zero, suc, ◌+◌, ◌^◌, ◌≤◌, ◌<◌, leb, Memory, List, [], ◌∷◌, ◌++◌, length}
use osd.Base.{
  length-append, get_elem?, codes, Option, some, Bool, true, ◌&&◌, ◌≡◌, inl, inr, refl, arith, ◌∙◌,
  ap, sym,
}
use osd.Tty.{Terminal, terminal_write}
use osd.Tty.Screen.{terminal_write-append}
use osd.Libc.Format.{number, text, printf}
use osd.Libc.Format.Render.{converted, string, IsConversion}
use osd.Libc.Format.Sinks.{printf-Renders}
use osd.Libc.Format.Literal.{is_literal, literal, only, Shown, shown}
use osd.Isr.{exception_messages, isr_handler}

-- Every text of the list has at most `n` characters.
abbrev is_short : ℕ → List (List ℕ) → Bool
is_short n [] = true
is_short n (m ∷ ms) = leb (length m) n && is_short n ms

-- A list of short texts has a short text at each of its indices.
short_message :
    (n : ℕ) (ms : List (List ℕ)) (i : ℕ)
    → is_short n ms ≡ true
    → i < length ms
    → (m : List ℕ) × (get_elem? ms i ≡ some m) × (length m ≤ n)
short_message n [] i all lt = absurd (omega arith)
short_message n (m ∷ ms) zero all lt = (m, refl, ground arith)
short_message n (m ∷ ms) (suc i) all lt = short_message n ms i (ground arith) (omega arith)

message_of :
    (i : ℕ) → i < 32 → (m : List ℕ) × (get_elem? exception_messages i ≡ some m) × (length m ≤ 64)
unfolding exception_messages
message_of i lt = short_message 64 exception_messages i refl lt

terminal_write-append3 :
    (t : Terminal) (a b c : List ℕ)
    → terminal_write t (a ++ (b ++ c)) ≡ terminal_write (terminal_write (terminal_write t a) b) c
terminal_write-append3 t a b c =
    terminal_write-append t a (b ++ c) ∙ terminal_write-append (terminal_write t a) b c

-- What the handler has printed: the vector, the vector's message, the error code and the address.
pub record Reported (fuel : ℕ) (unknown : Memory) (t : Terminal) (isr_num error_code eip : ℕ)
    (r : Option Terminal) : Type 0 where
  pub gate : Shown fuel unknown 10 isr_num
  pub message : List ℕ
  pub listed : get_elem? exception_messages isr_num ≡ some message
  pub error : Shown fuel unknown 10 error_code
  pub address : Shown fuel unknown 16 eip
  pub returns :
      r
      ≡ some (
          terminal_write t (
            (codes "\nReceived exception :: GATE " ++ (gate.out ++ codes "\n"))
            ++ ((message ++ (codes "(" ++ (error.out ++ codes ")\n")))
                ++ (codes "Exception occurred @ " ++ (address.out ++ codes "\n")))))

module _ (fuel : ℕ) (unknown : Memory) where
  -- One line with one number.
  print_number :
      (t : Terminal) (before after : List ℕ) (d radix x : ℕ) (s : Shown fuel unknown radix x)
      → is_literal before ≡ true
      → is_literal after ≡ true
      → IsConversion d radix
      → length before + length after < 64
      → printf fuel unknown t (before ++ b'%' ∷ d ∷ after) (number x ∷ [])
        ≡ some (
          terminal_write t (before ++ (s.out ++ after)),
          some (length (before ++ (s.out ++ after))),
        )
  print_number t before after d radix x s plain plain' c few =
      printf-Renders fuel unknown t (before ++ b'%' ∷ d ∷ after) (before ++ (s.out ++ after)) _
        (literal before plain (converted refl c s.returned (only after plain')))
        (omega (arith, length-append before (s.out ++ after), length-append s.out after, s.short))

  -- The line with the message of an exception.
  print_message :
      (t : Terminal) (m : List ℕ) (x : ℕ) (s : Shown fuel unknown 10 x)
      → length m ≤ 64
      → printf fuel unknown t (codes "%s(%d)\n") (text m ∷ number x ∷ [])
        ≡ some (
          terminal_write t (m ++ (codes "(" ++ (s.out ++ codes ")\n"))),
          some (length (m ++ (codes "(" ++ (s.out ++ codes ")\n")))),
        )
  print_message t m x s few =
      printf-Renders fuel unknown t (codes "%s(%d)\n") _ _
        (string refl refl (
          literal (codes "(") refl
            (converted refl (inl (refl, refl)) s.returned (only (codes ")\n") refl))))
        (omega (
          arith,
          length-append m (codes "(" ++ (s.out ++ codes ")\n")),
          length-append s.out (codes ")\n"),
          s.short,
        ))

  -- For each of the 32 exceptions, with a 32-bit error code and address and fuel above 2 ^ 32, the
  -- handler prints the vector in decimal, the vector's message with the error code in decimal, and the address in
  -- hexadecimal, in this order, and nothing else.
  pub isr_handler-Reported :
      (t : Terminal) (isr_num error_code eip : ℕ)
      → isr_num < 32
      → error_code < 2 ^ 32
      → eip < 2 ^ 32
      → 2 ^ 32 < fuel
      → Reported fuel unknown t isr_num error_code eip
          (isr_handler fuel unknown t isr_num error_code eip)
  unfolding isr_handler
  isr_handler-Reported t isr_num error_code eip known h h' f =
      let gate = shown fuel unknown 10 isr_num (inr (inl refl)) (omega arith) f in
      let error = shown fuel unknown 10 error_code (inr (inl refl)) h f in
      let address = shown fuel unknown 16 eip (inr (inr refl)) h' f in
      let m = message_of isr_num known in
      let before = codes "\nReceived exception :: GATE " ++ (gate.out ++ codes "\n") in
      let rest = codes "(" ++ (error.out ++ codes ")\n") in
      let last = codes "Exception occurred @ " ++ (address.out ++ codes "\n") in
      let a = terminal_write t before in
      let b = terminal_write a (m.0 ++ rest) in
      let first_line =
        print_number t (codes "\nReceived exception :: GATE ") (codes "\n") b'd' 10 isr_num gate
          refl refl (inl (refl, refl)) (omega arith) in
      let second_line = print_message a m.0 error_code error m.2 in
      let third_line =
        print_number b (codes "Exception occurred @ ") (codes "\n") b'x' 16 eip address refl refl
          (inr (inl (refl, refl))) (omega arith) in
      record {
        gate = gate;
        message = m.0;
        listed = m.1;
        error = error;
        address = address;
        returns =
            rw (first_line, m.1, second_line, third_line)
              (ap (λ (x : Terminal). some x)
                (sym (terminal_write-append3 t before (m.0 ++ rest) last)));
      }
