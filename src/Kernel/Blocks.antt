-- ===== src/Kernel/Blocks.antt =====
-- The two allocations of `kernel_main` (lumos/kernel/kernel.c), on the memory that `init_pmm` leaves.
use osd.Base.{ℕ, ◌+◌, ◌^◌, ◌<◌, ◌≤◌, Memory, Option, none, some, List, [], ◌∷◌, ◌++◌, length, Bool}
use osd.Base.{◌≡◌, ◌⊎◌, inl, inr, arith, ap, sym, ◌∙◌}
use mathlib.Core.Path.{subst}
use osd.Kernel.{two_calls}
use osd.Pmm.Zone.{zone_start, get_offset, block_size}
use osd.Pmm.Alloc.{pmm_alloc, mark_free}
use osd.Pmm.Alloc.Spec.{alloc_spec, pmm_alloc_lem}
use osd.Pmm.Logged.{pmm_alloc_logged}
use osd.Pmm.Logged.Logs.{Logs, Logs-Logs, Logs-last}
use osd.Pmm.Logged.Messages.{alloc_text, free_text}
use osd.Pmm.Logged.Calls.{pmm_alloc_logged-Logs, pmm_free_logged_lem}
use osd.Pmm.Init.Place.{Section}
use osd.Pmm.Session.{IsFree}
use osd.Pmm.Session.Calls.{IsSound, Takes, pmm_alloc-Takes}
use osd.Pmm.Session.Start.{IsAvailable}

-- Every section ends below the kernel's half of the addresses.
abbrev pub AllBelow : List Section → Type 0
AllBelow [] = Unit {0}
AllBelow (s ∷ ss) = (s.base + s.size ≤ 0xC0000000) × AllBelow ss

pub available_below :
    (used : Section → ℕ → Bool) (ss : List Section) (a : ℕ)
    → AllBelow ss
    → IsAvailable used ss a
    → a < 0xC0000000
available_below used [] a b h = absurd h
available_below used (s ∷ ss) a b (inl (j, lt, at, free)) = omega (arith, b.0)
available_below used (s ∷ ss) a b (inr h) = available_below used ss a b.1 h

-- The two calls and the return of the first address, without their messages. A second address handed
-- out is no block, or one that was free before the first.
pub record TwoBlocks (m : Memory) (z : ℕ) (zs : List ℕ) : Type 0 where
  pub t : ℕ
  pub u : ℕ
  pub after_t : Memory
  pub after_u : Memory
  pub first_call : alloc_spec m (z ∷ zs) ≡ (t, after_t)
  pub second_call : alloc_spec after_t (z ∷ zs) ≡ (u, after_u)
  pub sound_t : IsSound after_t z (z ∷ zs)
  pub sound_u : IsSound after_u z (z ∷ zs)
  pub from : (u ≡ 0) ⊎ IsFree m (z ∷ zs) u

abbrev reply_of : Option (ℕ × Memory) → ℕ × Memory
reply_of none = (0, λ a. 0)
reply_of (some r) = r

module _ (fuel : ℕ) (enough : 2 ^ 20 + 128 < fuel) (m : Memory) (z : ℕ) (zs : List ℕ)
    (few : length (z ∷ zs) < fuel) (sound : IsSound m z (z ∷ zs)) where
  IsFree-earlier :
      (a : Takes m z (z ∷ zs) (pmm_alloc fuel m z)) (x : ℕ)
      → IsFree a.mem (z ∷ zs) x
      → IsFree m (z ∷ zs) x
  IsFree-earlier a x f = elim a.outcome [
    | inl (null, kept, none_left) ↦ rw kept at f
    | inr (real, free, rest) ↦ ((rest x).0 f).0
  ]

  pub two_blocks : TwoBlocks m z zs
  two_blocks =
      let a = pmm_alloc-Takes fuel enough m z (z ∷ zs) sound few in
      let b = pmm_alloc-Takes fuel enough a.mem z (z ∷ zs) a.sound few in
      record {
        t = a.addr;
        u = b.addr;
        after_t = a.mem;
        after_u = b.mem;
        first_call =
            ap reply_of (
              sym (pmm_alloc_lem fuel m sound.words enough z (z ∷ zs) sound.zones few) ∙ a.returns);
        second_call = ap reply_of (
            sym (pmm_alloc_lem fuel a.mem a.sound.words enough z (z ∷ zs) a.sound.zones few)
            ∙ b.returns);
        sound_t = a.sound;
        sound_u = b.sound;
        from = elim b.outcome [
          | inl (null, kept, none_left) ↦ inl null
          | inr (real, free, rest) ↦ inr (IsFree-earlier a b.addr free)
        ];
      }

-- What the calls say, for their replies `t` and `u`.
abbrev replies_text : ℕ → Memory → Memory → ℕ → List ℕ → ℕ × Memory → ℕ × Memory → List ℕ
replies_text fuel unknown m z zs t u =
    alloc_text fuel unknown m (z ∷ zs)
    ++ (alloc_text fuel unknown t.1 (z ∷ zs) ++ free_text fuel unknown u.1 z t.0)

pub calls_text : ℕ → Memory → Memory → ℕ → List ℕ → List ℕ
calls_text fuel unknown m z zs =
    let t = alloc_spec m (z ∷ zs) in replies_text fuel unknown m z zs t (alloc_spec t.1 (z ∷ zs))

-- The calls with their messages.
module _ (fuel : ℕ) (unknown m : Memory) (z : ℕ) (zs : List ℕ) (enough : 2 ^ 32 < fuel)
    (sound : IsSound m z (z ∷ zs)) (few : length (z ∷ zs) < fuel) (b : TwoBlocks m z zs) where
  abbrev last_memory : Memory
  last_memory = mark_free b.after_u z (get_offset (zone_start b.after_u z) b.t block_size)

  replies-Logs :
      Logs
        (replies_text fuel unknown m z zs (b.t, b.after_t) (b.u, b.after_u))
        (b.u, last_memory)
        (two_calls fuel unknown z m)
  unfolding two_calls
  replies-Logs =
      Logs-Logs _ _ (b.t, b.after_t) _ _ _
        (subst
          (λ r. Logs (alloc_text fuel unknown m (z ∷ zs)) r (pmm_alloc_logged fuel unknown m z))
          b.first_call
          (pmm_alloc_logged-Logs fuel unknown enough m sound.words z (z ∷ zs) sound.zones few))
        (Logs-Logs _ _ (b.u, b.after_u) _ _ _
          (subst
            (λ r.
              Logs (alloc_text fuel unknown b.after_t (z ∷ zs)) r
                (pmm_alloc_logged fuel unknown b.after_t z))
            b.second_call
            (pmm_alloc_logged-Logs fuel unknown enough b.after_t b.sound_t.words z (z ∷ zs)
              b.sound_t.zones few))
          (Logs-last _ _ (λ (x : Memory). (b.u, x)) _
            (pmm_free_logged_lem fuel unknown enough b.after_u z z b.t zs b.sound_u.zones)))

  pub two_calls-Logs :
      (last : Memory) × Logs
        (calls_text fuel unknown m z zs)
        (b.u, last)
        (two_calls fuel unknown z m)
  unfolding calls_text
  two_calls-Logs = (
    last_memory,
    subst (λ s. Logs s (b.u, last_memory) (two_calls fuel unknown z m))
        (sym (
          ap (λ (t : ℕ × Memory). replies_text fuel unknown m z zs t (alloc_spec t.1 (z ∷ zs)))
            b.first_call
          ∙ ap (replies_text fuel unknown m z zs (b.t, b.after_t)) b.second_call))
        replies-Logs,
  )
