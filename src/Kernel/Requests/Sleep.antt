-- ===== src/Kernel/Requests/Sleep.antt =====
-- `sleep` of lumos/arch/i386/timer.c while requests are served (lumos/arch/i386/isr.c).
use osd.Base.{ℕ, ◌+◌, ◌*◌, ◌/◌, ◌^◌, ◌≤◌, ◌<◌, List, [], ◌∷◌, ◌++◌, Memory, refl, arith}
use osd.Base.{Option, some, ◌≡◌, ◌>>=◌, ◌⊎◌, inl, inr, leb, ap, Bool-cases}
use osd.Isr.{Handlers}
use osd.Timer.Sleep.{target_ticks_lem}
use osd.Kernel.{Image}
use osd.Kernel.Requests.{
  Running, Sleeping, woken, waiting, sending, serve, serve_all, sleep_serving, sleep_requests,
}
use osd.Kernel.Requests.Interleaved.{IsServed, count_ticks}
use osd.Kernel.Requests.Served.{
  AllRequests, acknowledgement, acknowledgements, Others, ServedOne, serve-One,
}

module _ (fuel : ℕ) (unknown past : Memory) (image : Image) (h : Handlers) where
  -- All requests have been served, and the ticks that `sleep` waits for have not come.
  pub record Waits (target : ℕ) (rs : List (ℕ × ℕ)) (s : Running) (o : Option Sleeping)
      : Type 0 where
    pub after : Running
    pub served : serve_all fuel unknown past image h rs s ≡ some (after, acknowledgements rs)
    pub returns : o ≡ some (waiting after (acknowledgements rs))
    pub missing : s.ticks + count_ticks rs ≤ target

  -- `sleep` has returned at the first request that takes the ticks past the target; the requests up
  -- to that one have been served, and no other.
  pub record Wakes (target : ℕ) (rs : List (ℕ × ℕ)) (s : Running) (o : Option Sleeping)
      : Type 0 where
    pub first : List (ℕ × ℕ)
    pub later : List (ℕ × ℕ)
    pub split : rs ≡ first ++ later
    pub after : Running
    pub served : serve_all fuel unknown past image h first s ≡ some (after, acknowledgements first)
    pub returns : o ≡ some (woken after (acknowledgements first) later)
    pub come : s.ticks + count_ticks first ≡ target + 1
    pub ticks : after.ticks ≡ target + 1

  module _ (target : ℕ) (fits : target + 1 < 2 ^ 32) where
    at_once :
        (rs : List (ℕ × ℕ)) (s : Running)
        → s.ticks ≡ target + 1
        → Wakes target rs s (some (woken s [] rs))
    unfolding serve_all
    at_once rs s e = record {
      first = [];
      later = rs;
      split = refl;
      after = s;
      served = refl;
      returns = refl;
      come = omega arith;
      ticks = e;
    }

    module _ (irq byte : ℕ) (rs : List (ℕ × ℕ)) (s : Running)
        (one : ServedOne fuel unknown past
          (irq, byte)
          s
          (serve fuel unknown past image h (irq, byte) s))
        (ticks : one.after.ticks ≡ s.ticks + count_ticks ((irq, byte) ∷ [])) where
      Waits-cons :
          {o : Option Sleeping}
          → Waits target rs one.after o
          → Waits target ((irq, byte) ∷ rs) s (o >>= λ w. some (sending (acknowledgement irq) w))
      unfolding serve_all sending
      Waits-cons v = record {
        after = v.after;
        served = rw (one.returns, v.served, one.sent) refl;
        returns = rw v.returns refl;
        missing = ground (arith, v.missing);
      }

      Wakes-cons :
          {o : Option Sleeping}
          → Wakes target rs one.after o
          → Wakes target ((irq, byte) ∷ rs) s (o >>= λ w. some (sending (acknowledgement irq) w))
      unfolding serve_all sending
      Wakes-cons v = record {
        first = (irq, byte) ∷ v.first;
        later = v.later;
        split = ap (λ l. (irq, byte) ∷ l) v.split;
        after = v.after;
        served = rw (one.returns, v.served, one.sent) refl;
        returns = rw v.returns refl;
        come = ground (arith, v.come);
        ticks = v.ticks;
      }

  module _ (w : IsServed image h) (others : Others h) (enough : 2 ^ 32 < fuel) where
    sleep_serving-ends :
        (target : ℕ) (rs : List (ℕ × ℕ)) (s : Running)
        → target + 1 < 2 ^ 32
        → AllRequests rs
        → s.ticks ≤ target + 1
        → Waits target rs s (sleep_serving fuel unknown past image h target rs s)
          ⊎ Wakes target rs s (sleep_serving fuel unknown past image h target rs s)
    unfolding sleep_serving serve_all
    sleep_serving-ends target [] s fits all le = elim (Bool-cases (leb s.ticks target)) [
      | inl go ↦
          rw go (inl (record { after = s; served = refl; returns = refl; missing = ground arith }))
      | inr stop ↦ rw stop (inr (at_once target fits [] s (ground arith)))
    ]
    sleep_serving-ends target ((irq, byte) ∷ rs) s fits (r, all) le =
        elim (Bool-cases (leb s.ticks target)) [
          | inr stop ↦ rw stop (inr (at_once target fits ((irq, byte) ∷ rs) s (ground arith)))
          | inl go ↦
              let below : s.ticks ≤ target = ground arith in
              let one =
                serve-One fuel unknown past image h w others enough irq byte s r.0 (omega arith) in
              let ticks : one.after.ticks ≡ s.ticks + count_ticks ((irq, byte) ∷ []) =
                ground (arith, one.ticks) in
              rw (go, one.returns, one.sent)
                (elim (sleep_serving-ends target rs one.after fits all (ground (arith, ticks))) [
                  | inl v ↦ inl (Waits-cons target fits irq byte rs s one ticks v)
                  | inr v ↦ inr (Wakes-cons target fits irq byte rs s one ticks v)
                ])
        ]

    -- With fuel above 2 ^ 32, where the handlers of the timer and of the keyboard are registered, at
    -- addresses that differ and are not null, and no others: while any of the sixteen requests come, in
    -- any order and with any bytes from the keyboard, `sleep` of a time that does not wrap around
    -- serves them all until the timer has ticked once more often than the milliseconds stand for, and
    -- returns then, with the later requests still to come; or the ticks have not come, and it still
    -- waits, with all requests served.
    pub sleep_requests-ends :
        (clocks_per_second ms : ℕ) (rs : List (ℕ × ℕ)) (s : Running)
        → AllRequests rs
        → ms * clocks_per_second < 2 ^ 32
        → s.ticks + ms * clocks_per_second / 1000 + 1 < 2 ^ 32
        → let target = s.ticks + ms * clocks_per_second / 1000 in
          let o = sleep_requests fuel unknown past image h clocks_per_second ms rs s in
          Waits target rs s o ⊎ Wakes target rs s o
    unfolding sleep_requests
    sleep_requests-ends clocks_per_second ms rs s all small fits =
        rw (target_ticks_lem s.ticks clocks_per_second ms small fits)
          (sleep_serving-ends _ rs s fits all (omega arith))
