-- ===== src/Libc/Format/Render.antt =====
-- What a format stands for, against the loop of libc/stdio/printf.c and libc/stdio/logf.c.
mod Round
pub use Round.*
use osd.Base.{
  ℕ, zero, suc, ◌+◌, ◌-◌, ◌≤◌, ◌<◌, u8, List, [], ◌∷◌, ◌++◌, length, length-append, append-nil,
}
use osd.Base.{Option, none, some, ◌>>=◌, Option-cases, Bool-cases, false, ==_iff, ltb, ◌==◌}
use osd.Base.{Bool, true, ◌≡◌, ◌≢◌, ◌⊎◌, ◌∙◌, sym, ap, refl, arith, inl, inr}
use osd.Libc.Format.{
  int_max, Argument, number, text, plain, after_plain, Piece, directive, percent, next_piece,
  with_number, with_text, format_from,
}

Renders-empty :
    {text_of : ℕ → ℕ → Option (List ℕ)} {t : List ℕ} {args : List Argument}
    → Renders text_of [] args t
    → t ≡ []
Renders-empty finished = refl

-- A device that never refuses a text, and takes a text in parts as it takes the whole: `put` is what
-- a text does to it.
pub record IsSink {ℓ} {S : Type ℓ} (emit : S → List ℕ → Option (S × Bool))
    (put : S → List ℕ → Option S) : Type ℓ where
  pub takes : (s : S) (cs : List ℕ) → emit s cs ≡ (put s cs >>= λ s'. some (s', true))
  pub empty : (s : S) → put s [] ≡ some s
  pub append : (s : S) (a b : List ℕ) → put s (a ++ b) ≡ (put s a >>= λ s'. put s' b)

module _ {ℓ} {S : Type ℓ} (text_of : ℕ → ℕ → Option (List ℕ))
    (emit : S → List ℕ → Option (S × Bool)) where
  pub format_from-fits :
      (put : S → List ℕ → Option S)
      → IsSink emit put
      → (fuel : ℕ) (cs t : List ℕ) (args : List Argument) (n : ℕ) (s : S)
      → Renders text_of cs args t
      → length cs < fuel
      → n + length t ≤ int_max
      → format_from text_of emit fuel cs args n s
        ≡ (put s t >>= λ s'. some (s', some (n + length t)))
  unfolding format_from
  format_from-fits put sink zero cs t args n s r h fits = absurd (omega arith)
  format_from-fits put sink (suc fuel) [] t args n s r h fits =
      rw (Renders-empty r, sink.empty s) (ap (λ k. some (s, some k)) (omega arith))
  format_from-fits put sink (suc fuel) (c ∷ cs) t args n s r h fits =
      let f = first_round text_of r in
      let (p, (rest, later)) = f.piece in
      let sizes = length-append p f.later_text in
      let total : n + length t ≡ n + length p + length f.later_text =
        omega (arith, ap length f.splits, sizes) in
      let small : ltb (int_max - n) (length p) ≡ false = ground (arith, total) in
      rw (f.taken, small, sink.takes s p)
        (elim (Option-cases (put s p)) [
          | inl stuck ↦ rw (f.splits, sink.append s p f.later_text, stuck) refl
          | inr (s', e) ↦
              rw (f.splits, sink.append s p f.later_text, e)
                (format_from-fits put sink fuel rest f.later_text later (n + length p) s' f.later
                    (omega (arith, f.shorter)) (omega (arith, total))
                  ∙ ap (λ (k : ℕ). put s' f.later_text >>= λ last. some (last, some k))
                      (omega (arith, sizes)))
        ])

  pub format_from-exceeds :
      ((s : S) (cs : List ℕ) → (s' : S) × (emit s cs ≡ some (s', true)))
      → (fuel : ℕ) (cs t : List ℕ) (args : List Argument) (n : ℕ) (s : S)
      → Renders text_of cs args t
      → length cs < fuel
      → n ≤ int_max
      → int_max < n + length t
      → (s' : S) × (format_from text_of emit fuel cs args n s ≡ some (s', none))
  unfolding format_from
  format_from-exceeds takes zero cs t args n s r h below over = absurd (omega arith)
  format_from-exceeds takes (suc fuel) [] t args n s r h below over =
      absurd (omega (arith, ap length (Renders-empty r)))
  format_from-exceeds takes (suc fuel) (c ∷ cs) t args n s r h below over =
      let f = first_round text_of r in
      let (p, (rest, later)) = f.piece in
      let sizes = length-append p f.later_text in
      let total : n + length t ≡ n + length p + length f.later_text =
        omega (arith, ap length f.splits, sizes) in
      elim (Bool-cases (ltb (int_max - n) (length p))) [
        | inl big ↦ rw (f.taken, big) (s, refl)
        | inr small ↦
            let (s', e) = takes s p in
            rw (f.taken, small, e)
              (format_from-exceeds takes fuel rest f.later_text later (n + length p) s' f.later
                (omega (arith, f.shorter)) (ground arith) (omega (arith, total)))
      ]
