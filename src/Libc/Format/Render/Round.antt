-- ===== src/Libc/Format/Render/Round.antt =====
-- What a format stands for, and the first round of the loop of libc/stdio/printf.c and
-- libc/stdio/logf.c on it.
use osd.Base.{ℕ, ◌≤◌, u8, List, [], ◌∷◌, ◌++◌, length, append-nil}
use osd.Base.{Option, some, Bool-cases, ==_iff, ◌==◌}
use osd.Base.{◌≡◌, ◌≢◌, ◌⊎◌, sym, ap, refl, arith, inl, inr}
use osd.Libc.Format.{
  Argument, number, text, plain, after_plain, Piece, directive, percent, next_piece, with_number,
  with_text,
}

-- The conversions of a word, with their radices.
abbrev pub IsConversion : ℕ → ℕ → Type 0
IsConversion d radix =
    ((d ≡ b'd') × (radix ≡ 10)) ⊎ (((d ≡ b'x') × (radix ≡ 16)) ⊎ ((d ≡ b'o') × (radix ≡ 8)))

abbrev pub IsUnknown : ℕ → Type 0
IsUnknown d = (d ≢ b'%') × (d ≢ b'c') × (d ≢ b's') × (d ≢ b'd') × (d ≢ b'x') × (d ≢ b'o')

-- The text that a format with its arguments stands for, character by character. An unknown
-- directive makes the rest of the format plain text, and a `%` at the end stands for nothing.
pub data Renders (text_of : ℕ → ℕ → Option (List ℕ))
    : List ℕ → List Argument → List ℕ → Type 0 where
  finished : {args : List Argument} → Renders text_of [] args []
  itself :
      {c : ℕ} {cs t : List ℕ} {args : List Argument}
      → c ≢ b'%'
      → Renders text_of cs args t
      → Renders text_of (c ∷ cs) args (c ∷ t)
  percent_sign :
      {c d : ℕ} {cs t : List ℕ} {args : List Argument}
      → c ≡ b'%'
      → d ≡ b'%'
      → Renders text_of cs args t
      → Renders text_of (c ∷ d ∷ cs) args (d ∷ t)
  lone_percent : {c : ℕ} {args : List Argument} → c ≡ b'%' → Renders text_of (c ∷ []) args []
  character :
      {c d x : ℕ} {cs t : List ℕ} {args : List Argument}
      → c ≡ b'%'
      → d ≡ b'c'
      → Renders text_of cs args t
      → Renders text_of (c ∷ d ∷ cs) (number x ∷ args) (u8 x ∷ t)
  string :
      {c d : ℕ} {cs t s : List ℕ} {args : List Argument}
      → c ≡ b'%'
      → d ≡ b's'
      → Renders text_of cs args t
      → Renders text_of (c ∷ d ∷ cs) (text s ∷ args) (s ++ t)
  converted :
      {c d x radix : ℕ} {cs t s : List ℕ} {args : List Argument}
      → c ≡ b'%'
      → IsConversion d radix
      → text_of radix x ≡ some s
      → Renders text_of cs args t
      → Renders text_of (c ∷ d ∷ cs) (number x ∷ args) (s ++ t)
  unknown :
      {c d : ℕ} {cs : List ℕ} {args : List Argument}
      → c ≡ b'%'
      → IsUnknown d
      → Renders text_of (c ∷ d ∷ cs) args (d ∷ cs)

module _ (text_of : ℕ → ℕ → Option (List ℕ)) where
  -- The run of plain characters at the start of a format is the start of its text.
  record Plain (cs : List ℕ) (args : List Argument) (t : List ℕ) : Type 0 where
    later_text : List ℕ
    splits : t ≡ plain cs ++ later_text
    later : Renders text_of (after_plain cs) args later_text
    shorter : length (after_plain cs) ≤ length cs

  at_percent :
      {c : ℕ} {cs t : List ℕ} {args : List Argument}
      → c ≡ b'%'
      → Renders text_of (c ∷ cs) args t
      → Plain (c ∷ cs) args t
  unfolding plain after_plain
  at_percent {c} {cs} {t} e r = record {
    later_text = t;
    splits = ground arith;
    later = rw ((==_iff c b'%').1 e) r;
    shorter = ground arith;
  }

  Renders-Plain :
      {cs t : List ℕ} {args : List Argument} → Renders text_of cs args t → Plain cs args t
  unfolding plain after_plain
  Renders-Plain finished = record {
    later_text = [];
    splits = refl;
    later = finished;
    shorter = omega arith;
  }
  Renders-Plain (itself {c} ne r) =
      let p = Renders-Plain r in
      elim (Bool-cases (c == b'%')) [
        | inl e ↦ absurd (ne ((==_iff c b'%').0 e))
        | inr e ↦ record {
          later_text = p.later_text;
          splits = rw e (ap (λ l. c ∷ l) p.splits);
          later = rw e p.later;
          shorter = rw e (omega (arith, p.shorter));
        }
      ]
  Renders-Plain (percent_sign e e' r) = at_percent e (percent_sign e e' r)
  Renders-Plain (lone_percent e) = at_percent e (lone_percent e)
  Renders-Plain (character e e' r) = at_percent e (character e e' r)
  Renders-Plain (string e e' r) = at_percent e (string e e' r)
  Renders-Plain (converted e e' e'' r) = at_percent e (converted e e' e'' r)
  Renders-Plain (unknown e e') = at_percent e (unknown e e')

  -- The first round of the loop on a format that is not at its end.
  pub record FirstRound (c : ℕ) (cs : List ℕ) (args : List Argument) (t : List ℕ) : Type 0 where
    pub piece : Piece
    pub taken : next_piece text_of c cs args ≡ some piece
    pub later_text : List ℕ
    pub splits : t ≡ piece.0 ++ later_text
    pub later : Renders text_of piece.1.0 piece.1.1 later_text
    pub shorter : length piece.1.0 ≤ length cs

  pub first_round :
      {c : ℕ} {cs t : List ℕ} {args : List Argument}
      → Renders text_of (c ∷ cs) args t
      → FirstRound c cs args t
  unfolding next_piece percent directive with_number with_text
  first_round (itself {c} {cs} {t} {args} ne r) =
      let p = Renders-Plain r in
      elim (Bool-cases (c == b'%')) [
        | inl e ↦ absurd (ne ((==_iff c b'%').0 e))
        | inr e ↦ record {
          piece = (c ∷ plain cs, (after_plain cs, args));
          taken = rw e refl;
          later_text = p.later_text;
          splits = ap (λ l. c ∷ l) p.splits;
          later = p.later;
          shorter = p.shorter;
        }
      ]
  first_round (percent_sign {c} {d} {cs} {t} {args} e e' r) =
      let p = Renders-Plain r in
      record {
        piece = (d ∷ plain cs, (after_plain cs, args));
        taken = rw ((==_iff c b'%').1 e, (==_iff d b'%').1 e') refl;
        later_text = p.later_text;
        splits = ap (λ l. d ∷ l) p.splits;
        later = p.later;
        shorter = omega (arith, p.shorter);
      }
  first_round (lone_percent {c} {args} e) = record {
    piece = ([], ([], args));
    taken = rw ((==_iff c b'%').1 e) refl;
    later_text = [];
    splits = refl;
    later = finished;
    shorter = omega arith;
  }
  first_round (character {c} {d} {x} {cs} {t} {args} e e' r) = record {
    piece = (u8 x ∷ [], (cs, args));
    taken = rw (e, e') refl;
    later_text = t;
    splits = refl;
    later = r;
    shorter = omega arith;
  }
  first_round (string {c} {d} {cs} {t} {s} {args} e e' r) = record {
    piece = (s, (cs, args));
    taken = rw (e, e') refl;
    later_text = t;
    splits = refl;
    later = r;
    shorter = omega arith;
  }
  first_round (converted {c} {d} {x} {radix} {cs} {t} {s} {args} e k f r) = record {
    piece = (s, (cs, args));
    taken = elim k [
      | inl (e', q) ↦ rw (e, e', ← q, f) refl
      | inr (inl (e', q)) ↦ rw (e, e', ← q, f) refl
      | inr (inr (e', q)) ↦ rw (e, e', ← q, f) refl
    ];
    later_text = t;
    splits = refl;
    later = r;
    shorter = omega arith;
  }
  first_round (unknown {c} {d} {cs} {args} e k) = record {
    piece = (d ∷ cs, ([], args));
    taken = ground (arith, e, k);
    later_text = [];
    splits = sym (append-nil (d ∷ cs));
    later = finished;
    shorter = omega arith;
  }
