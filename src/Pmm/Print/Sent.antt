-- ===== src/Pmm/Print/Sent.antt =====
-- What the debug output of lumos/arch/i386/pmm.c sends through the serial line.
use osd.Base.{ℕ, zero, suc, ◌+◌, ◌*◌, ◌^◌, ◌≤◌, ◌<◌, u32, Memory, List, [], ◌∷◌, ◌++◌, codes}
use osd.Base.{Option, none, some, ◌>>=◌, leb, if◌then◌else◌, true, map, length}
use osd.Base.{◌≡◌, inl, inr, refl, arith, ◌∙◌, ap, sym, length-append, append_assoc}
use osd.Com.{com1}
use osd.Com.Log.{count_ready}
use osd.Libc.Format.{Argument, number, number_text, Line}
use osd.Libc.Format.Render.{Renders, converted, IsConversion}
use osd.Libc.Format.Literal.{is_literal, literal, only, shown}
use osd.Libc.Itoa.Width.{IsPrintfRadix}
use osd.Pmm.Zone.{zone_start, zone_end, zone_length, zone_free, zone_bitmap_words, zone_bitmap}
use osd.Libc.Format.Sinks.{logf-Renders}
use osd.Pmm.Print.{say}

-- A text as it is sent, byte for byte.
abbrev pub bytes : List ℕ → List (ℕ × ℕ)
bytes text = map (λ c. (com1, c)) text

-- The line after a text: all of it has been sent, and each character has used up a ready read.
pub record Sends (text : List ℕ) (l : Line) (r : Option Line) : Type 0 where
  pub later : List ℕ
  pub returns : r ≡ some (record { reads = later; sent = l.sent ++ bytes text })
  pub used : count_ready later + length text ≡ count_ready l.reads

-- A function that sends a text, if the line is ready often enough.
abbrev pub IsSender : List ℕ → (Line → Option Line) → Type 0
IsSender text f = (l : Line) → length text ≤ count_ready l.reads → Sends text l (f l)

pub bytes-append : (a b : List ℕ) → bytes (a ++ b) ≡ bytes a ++ bytes b
bytes-append [] b = refl
bytes-append (x ∷ a) b = ap (λ t. (com1, x) ∷ t) (bytes-append a b)

-- One function after the other sends one text after the other.
pub IsSender-append :
    (a b : List ℕ) (f g : Line → Option Line)
    → IsSender a f
    → IsSender b g
    → IsSender (a ++ b) (λ l. f l >>= g)
IsSender-append a b f g first second l h =
    let size = length-append a b in
    let x = first l (omega (arith, size)) in
    let sent : Line = record { reads = x.later; sent = l.sent ++ bytes a } in
    let y = second sent (omega (arith, size, x.used)) in
    record {
      later = y.later;
      returns =
          rw (x.returns, y.returns)
            (ap (λ t. some (record { reads = y.later; sent = t }))
              (append_assoc l.sent (bytes a) (bytes b)
                ∙ ap (λ t. l.sent ++ t) (sym (bytes-append a b))));
      used = omega (arith, size, x.used, y.used);
    }

module _ (fuel : ℕ) (unknown : Memory) where
  pub say-IsSender :
      (format out : List ℕ) (args : List Argument)
      → Renders (number_text fuel unknown) format args out
      → length out < 128
      → IsSender out (say fuel unknown format args)
  unfolding say
  say-IsSender format out args r few l h =
      let k = logf-Renders fuel unknown l format out args r (omega arith) h in
      record { later = k.0; returns = rw k.1 refl; used = k.2 }

-- The radix of a conversion is one that `printf` knows.
pub conversion_radix : {d radix : ℕ} → IsConversion d radix → IsPrintfRadix radix
conversion_radix (inl e) = inr (inl e.1)
conversion_radix (inr (inl e)) = inr (inr e.1)
conversion_radix (inr (inr e)) = inl e.1

-- The text of a number.
abbrev pub or_nothing : Option (List ℕ) → List ℕ
or_nothing none = []
or_nothing (some t) = t

module _ (fuel : ℕ) (unknown : Memory) where
  abbrev pub chars_of : ℕ → ℕ → List ℕ
  chars_of radix x = or_nothing (number_text fuel unknown radix x)

  module _ (m : Memory) where
    -- The first six words in hexadecimal, with dots behind the sixth.
    abbrev pub words_text : ℕ → ℕ → ℕ → List ℕ
    words_text map_start zero i = []
    words_text map_start (suc n) i =
        let rest = words_text map_start n (i + 1) in
        (codes " " ++ (chars_of 16 (m (map_start + 4 * i)) ++ codes " "))
        ++ (if leb 5 i then codes "..." else rest)

    abbrev pub zone_text : ℕ → List ℕ
    zone_text z =
        (codes "Zone info @ " ++ (chars_of 16 z ++ codes ": \n"))
        ++ (codes "zone start: " ++ (chars_of 16 (zone_start m z) ++ codes "\n"))
        ++ (codes "zone end: " ++ (chars_of 16 (zone_end m z) ++ codes "\n"))
        ++ (codes "zone free: " ++ (chars_of 10 (zone_free m z) ++ codes " blocks\n"))
        ++ (codes "zone length: " ++ (chars_of 10 (zone_length m z) ++ codes "\n"))
        ++ (codes "zone bitmap words: "
            ++ (chars_of 10 (zone_bitmap_words m z)
                ++ (codes " words : "
                    ++ (chars_of 10 (u32 (zone_bitmap_words m z * 4)) ++ codes " bytes\n"))))
        ++ (codes "bitmap location: " ++ (chars_of 16 (zone_bitmap m z) ++ codes "\n"))
        ++ codes "bitmap contents : "
        ++ words_text (zone_bitmap m z) (zone_bitmap_words m z) 0
        ++ codes "\n"

  module _ (enough : 2 ^ 32 < fuel) where
    pub chars_of_lem :
        (radix x : ℕ)
        → IsPrintfRadix radix
        → x < 2 ^ 32
        → (number_text fuel unknown radix x ≡ some (chars_of radix x))
          × (length (chars_of radix x) < 12)
    chars_of_lem radix x r lt =
        let s = shown fuel unknown radix x r lt enough in rw s.returned (refl, s.short)

    number-IsSender :
        (before after : List ℕ) (d radix x : ℕ)
        → IsConversion d radix
        → IsPrintfRadix radix
        → x < 2 ^ 32
        → is_literal before ≡ true
        → is_literal after ≡ true
        → length before + length after < 64
        → IsSender
            (before ++ (chars_of radix x ++ after))
            (say fuel unknown (before ++ b'%' ∷ d ∷ after) (number x ∷ []))
    number-IsSender before after d radix x c r lt plain plain' few =
        let s = chars_of_lem radix x r lt in
        say-IsSender fuel unknown _ _ _
          (literal before plain (converted refl c s.0 (only after plain')))
          (omega (
            arith,
            length-append before (chars_of radix x ++ after),
            length-append (chars_of radix x) after,
            s.1,
          ))

    pub hex-IsSender :
        (before after : List ℕ) (x : ℕ)
        → x < 2 ^ 32
        → is_literal before ≡ true
        → is_literal after ≡ true
        → length before + length after < 64
        → IsSender
            (before ++ (chars_of 16 x ++ after))
            (say fuel unknown (before ++ b'%' ∷ b'x' ∷ after) (number x ∷ []))
    hex-IsSender before after x lt =
        number-IsSender before after b'x' 16 x (inr (inl (refl, refl))) (inr (inr refl)) lt

    pub decimal-IsSender :
        (before after : List ℕ) (x : ℕ)
        → x < 2 ^ 32
        → is_literal before ≡ true
        → is_literal after ≡ true
        → length before + length after < 64
        → IsSender
            (before ++ (chars_of 10 x ++ after))
            (say fuel unknown (before ++ b'%' ∷ b'd' ∷ after) (number x ∷ []))
    decimal-IsSender before after x lt =
        number-IsSender before after b'd' 10 x (inl (refl, refl)) (inr (inl refl)) lt

    pub plain-IsSender :
        (t : List ℕ) → is_literal t ≡ true → length t < 128 → IsSender t (say fuel unknown t [])
    plain-IsSender t plain few = say-IsSender fuel unknown t t [] (only t plain) few

    -- A line with two numbers.
    pub pair-IsSender :
        (before mid after : List ℕ) (d radix x d' radix' y : ℕ)
        → IsConversion d radix
        → IsConversion d' radix'
        → x < 2 ^ 32
        → y < 2 ^ 32
        → is_literal before ≡ true
        → is_literal mid ≡ true
        → is_literal after ≡ true
        → length before + (length mid + length after) < 64
        → IsSender (before ++ (chars_of radix x ++ (mid ++ (chars_of radix' y ++ after)))) (
            say fuel unknown
              (before ++ b'%' ∷ d ∷ (mid ++ b'%' ∷ d' ∷ after))
              (number x ∷ number y ∷ []))
    pair-IsSender before mid after d radix x d' radix' y c c' lt lt' p p' p'' few =
        let s = chars_of_lem radix x (conversion_radix c) lt in
        let s' = chars_of_lem radix' y (conversion_radix c') lt' in
        let tail = chars_of radix' y ++ after in
        say-IsSender fuel unknown _ _ _
          (literal before p
            (converted refl c s.0 (literal mid p' (converted refl c' s'.0 (only after p'')))))
          (omega (
            arith,
            length-append before (chars_of radix x ++ (mid ++ tail)),
            length-append (chars_of radix x) (mid ++ tail),
            length-append mid tail,
            length-append (chars_of radix' y) after,
            s.1,
            s'.1,
          ))
