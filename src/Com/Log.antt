-- ===== src/Com/Log.antt =====
-- What reaches the serial line (lumos/arch/i386/com.c, libc/stdio/logf.c).
use osd.Base.{ℕ, zero, suc, ◌+◌, ◌≤◌, ◌<◌, bit_and, ◌==◌, List, [], ◌∷◌, map, length, some}
use osd.Base.{◌++◌, ◌>>=◌, Option-cases, Bool-cases, inl, inr, ◌≡◌, ap, refl, arith, if◌then◌else◌}
use osd.Com.{com1, com1_send, prepend, log}

-- How often the line is ready among the reads of its status.
unfoldable pub count_ready : List ℕ → ℕ
count_ready [] = 0
count_ready (s ∷ l) = if bit_and s 0x20 == 0 then count_ready l else suc (count_ready l)

-- The reads of a line that is ready at the next `n` of them.
pub ready_reads : ℕ → List ℕ
ready_reads zero = []
ready_reads (suc n) = 0x20 ∷ ready_reads n

pub count_ready-ready_reads : (n : ℕ) → count_ready (ready_reads n) ≡ n
unfolding count_ready ready_reads
count_ready-ready_reads zero = refl
count_ready-ready_reads (suc n) = ap suc (count_ready-ready_reads n)

com1_send_lem :
    (reads : List ℕ) (c : ℕ)
    → 0 < count_ready reads
    → (later : List ℕ) × (com1_send reads c ≡ some (later, (com1, c)))
      × (count_ready later + 1 ≡ count_ready reads)
unfolding com1_send count_ready
com1_send_lem [] c h = absurd (omega arith)
com1_send_lem (s ∷ l) c h = elim (Bool-cases (bit_and s 0x20 == 0)) [
  | inl busy ↦ rw busy (com1_send_lem l c (rw busy at h))
  | inr ready ↦ rw ready (l, refl, omega arith)
]

-- If the line becomes ready often enough, `log` returns, and has sent every byte of the text to the
-- data port, in order and once.
pub log_lem :
    (reads text : List ℕ)
    → length text ≤ count_ready reads
    → (later : List ℕ) × (log reads text ≡ some (later, map (λ c. (com1, c)) text))
      × (count_ready later + length text ≡ count_ready reads)
unfolding log prepend
log_lem reads [] h = (reads, refl, omega arith)
log_lem reads (c ∷ cs) h =
    let (later, sent, fewer) = com1_send_lem reads c (omega arith) in
    let (last, all, count) = log_lem later cs (omega arith) in (last, rw (sent, all), omega arith)

pub log-empty : (reads : List ℕ) → log reads [] ≡ some (reads, [])
unfolding log
log-empty reads = refl

-- A text in two parts sends what the whole text sends.
pub log-append :
    (reads a b : List ℕ)
    → log reads (a ++ b) ≡ (log reads a >>= λ r. log r.0 b >>= λ r'. some (r'.0, r.1 ++ r'.1))
unfolding log prepend
log-append reads [] b = elim (Option-cases (log reads b)) [
  | inl e ↦ rw e refl
  | inr (r, e) ↦ rw e refl
]
log-append reads (c ∷ a) b = elim (Option-cases (com1_send reads c)) [
  | inl e ↦ rw e refl
  | inr (r, e) ↦
      rw (e, log-append r.0 a b)
        (elim (Option-cases (log r.0 a)) [
          | inl f ↦ rw f refl
          | inr (r', f) ↦
              rw f
                (elim (Option-cases (log r'.0 b)) [ inl g ↦ rw g refl | inr (r'', g) ↦ rw g refl ])
        ])
]
