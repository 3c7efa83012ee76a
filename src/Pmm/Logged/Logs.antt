-- ===== src/Pmm/Logged/Logs.antt =====
-- Functions that send a text through the serial line (libc/stdio/logf.c) and return a value.
use osd.Base.{
  ℕ, zero, suc, ◌+◌, ◌≤◌, List, [], ◌++◌, length, append-nil, append_assoc, length-append,
}
use osd.Base.{
  Option, none, some, ◌>>=◌, Option-cases, Bool, Bool-cases, true, false, while_some, while_some-go,
  while_some-stop,
}
use osd.Base.{◌≡◌, inl, inr, refl, arith, ◌∙◌, ap, sym}
use osd.Com.Log.{count_ready}
use osd.Libc.Format.{Line}
use osd.Pmm.Print.Sent.{bytes, bytes-append, IsSender}

module _ {ℓ} {A : Type ℓ} where
  -- The value, and the line after a text.
  pub record Logged (text : List ℕ) (a : A) (l : Line) (r : Option (A × Line)) : Type ℓ where
    pub later : List ℕ
    pub returns : r ≡ some (a, record { reads = later; sent = l.sent ++ bytes text })
    pub used : count_ready later + length text ≡ count_ready l.reads

  -- A function that sends the text and returns the value, if the line is ready often enough.
  abbrev pub Logs : List ℕ → A → (Line → Option (A × Line)) → Type ℓ
  Logs text a f = (l : Line) → length text ≤ count_ready l.reads → Logged text a l (f l)

  pub Logs-return : (a : A) → Logs [] a (λ l. some (a, l))
  Logs-return a l h = record {
    later = l.reads;
    returns = ap (λ t. some (a, record { reads = l.reads; sent = t })) (sym (append-nil l.sent));
    used = omega arith;
  }

  -- One text behind another.
  joined :
      (l : Line) (later s t : List ℕ) (a : A)
      → ◌≡◌ {A = Option (A × Line)}
          (some (a, record { reads = later; sent = (l.sent ++ bytes s) ++ bytes t }))
          (some (a, record { reads = later; sent = l.sent ++ bytes (s ++ t) }))
  joined l later s t a =
      ap (λ x. some (a, record { reads = later; sent = x }))
        (append_assoc l.sent (bytes s) (bytes t) ∙ ap (λ x. l.sent ++ x) (sym (bytes-append s t)))

  -- A message before the rest.
  pub IsSender-Logs :
      (s t : List ℕ) (a : A) (f : Line → Option Line) (g : Line → Option (A × Line))
      → IsSender s f
      → Logs t a g
      → Logs (s ++ t) a (λ l. f l >>= g)
  IsSender-Logs s t a f g first second l h =
      let size = length-append s t in
      let x = first l (omega (arith, size)) in
      let y =
        second (record { reads = x.later; sent = l.sent ++ bytes s })
          (omega (arith, size, x.used)) in
      record {
        later = y.later;
        returns = rw (x.returns, y.returns) (joined l y.later s t a);
        used = omega (arith, size, x.used, y.used);
      }

  -- A message at the end.
  pub IsSender-last :
      (s : List ℕ) (a : A) (f : Line → Option Line)
      → IsSender s f
      → Logs s a (λ l. f l >>= λ l'. some (a, l'))
  IsSender-last s a f sends l h =
      let x = sends l h in record { later = x.later; returns = rw x.returns refl; used = x.used }

-- One function before another that takes its value.
pub Logs-Logs {ℓ κ} :
    {A : Type ℓ} {B : Type κ} (s t : List ℕ) (a : A) (b : B) (f : Line → Option (A × Line))
    (g : A × Line → Option (B × Line))
    → Logs s a f
    → Logs t b (λ l. g (a, l))
    → Logs (s ++ t) b (λ l. f l >>= g)
Logs-Logs s t a b f g first second l h =
    let size = length-append s t in
    let x = first l (omega (arith, size)) in
    let y =
      second (record { reads = x.later; sent = l.sent ++ bytes s }) (omega (arith, size, x.used)) in
    record {
      later = y.later;
      returns = rw (x.returns, y.returns) (joined l y.later s t b);
      used = omega (arith, size, x.used, y.used);
    }

module _ {A : Type 0} (go : A → Bool) (next : A → Option A) where
  no_rounds : (s r : A) → while_some 0 go next s ≡ some r → ⊥
  unfolding while_some
  no_rounds s r e = cc

  no_step :
      (fuel : ℕ) (s r : A)
      → go s ≡ true
      → next s ≡ none
      → while_some (suc fuel) go next s ≡ some r
      → ⊥
  unfolding while_some
  no_step fuel s r on stuck e = cc (rw (on, stuck, while_some) at e)

-- A last step on the value.
pub Logs-last {ℓ κ} :
    {A : Type ℓ} {B : Type κ} (s : List ℕ) (a : A) (g : A → B) (f : Line → Option (A × Line))
    → Logs s a f
    → Logs s (g a) (λ l. f l >>= λ r. some (g r.0, r.1))
Logs-last s a g f first l h =
    let x = first l h in record { later = x.later; returns = rw x.returns refl; used = x.used }

-- A loop that logs, against the same loop without messages.
module _ {A : Type 0} (go : A → Bool) (next : A → Option A) (text_of : A → List ℕ) where
  -- The messages of all rounds, from a state on.
  unfoldable pub run_text : ℕ → A → List ℕ
  run_text zero s = []
  run_text (suc fuel) s = elim (go s) [
    | false ↦ []
    | true ↦ elim (next s) [ none ↦ [] | some s' ↦ text_of s ++ run_text fuel s' ]
  ]

  run_text-go :
      (fuel : ℕ) (s s' : A)
      → go s ≡ true
      → next s ≡ some s'
      → run_text (suc fuel) s ≡ text_of s ++ run_text fuel s'
  unfolding run_text
  run_text-go fuel s s' on moved = rw (on, moved, run_text)

  run_text-stop : (fuel : ℕ) (s : A) → go s ≡ false → run_text (suc fuel) s ≡ []
  unfolding run_text
  run_text-stop fuel s off = rw (off, run_text)

  module _ (logged : A × Line → Option (A × Line))
      (step : (s s' : A) → next s ≡ some s' → Logs (text_of s) s' (λ l. logged (s, l))) where
    abbrev loop : ℕ → A × Line → Option (A × Line)
    loop fuel t = while_some fuel (λ t. go t.0) logged t

    -- The loop with messages returns what the loop without them returns.
    pub while_some-Logs :
        (fuel : ℕ) (s r : A)
        → while_some fuel go next s ≡ some r
        → Logs (run_text fuel s) r (λ l. loop fuel (s, l))
    while_some-Logs zero s r e l h = absurd (no_rounds go next s r e)
    while_some-Logs (suc fuel) s r e l h = elim (Bool-cases (go s)) [
      | inr off ↦
          let same : s ≡ r = cc (sym (while_some-stop fuel go next s off) ∙ e) in
          rw (run_text-stop fuel s off, while_some-stop fuel (λ t. go t.0) logged (s, l) off, same)
            (Logs-return r l (omega arith))
      | inl on ↦ elim (Option-cases (next s)) [
        | inl stuck ↦ absurd (no_step go next fuel s r on stuck e)
        | inr (s', moved) ↦
            let e' = sym (while_some-go fuel go next s s' on moved) ∙ e in
            let text = run_text-go fuel s s' on moved in
            let size = length-append (text_of s) (run_text fuel s') in
            let h' : length (text_of s ++ run_text fuel s') ≤ count_ready l.reads = rw text at h in
            let x = step s s' moved l (omega (arith, size)) in
            let l' : Line = record { reads = x.later; sent = l.sent ++ bytes (text_of s) } in
            let y = while_some-Logs fuel s' r e' l' (omega (arith, size, x.used)) in
            rw text (record {
              later = y.later;
              returns =
                  while_some-go fuel (λ t. go t.0) logged (s, l) (s', l') on x.returns
                  ∙ y.returns
                  ∙ joined l y.later (text_of s) (run_text fuel s') r;
              used = omega (arith, size, x.used, y.used);
            })
      ]
    ]
