-- ===== src/Base/Loops.antt =====
-- `while (test) body` on fuel, with one rule for total correctness.
use Prim.Native.Nat.{ℕ, zero, suc, ◌<◌}
use mathlib.Core.Path.{◌≡◌, refl}
use mathlib.Core.Bool.{Bool, true, false}
use mathlib.Core.Logic.{inl, inr}
use mathlib.Core.Option.{Option, none, some}
use native.Mathlib.Omega.{arith}
use osd.Base.Tests.{Bool-cases}

-- `none` means that the fuel ran out.
unfoldable pub while {ℓ} : {A : Type ℓ} (fuel : ℕ) (go : A → Bool) (next : A → A) → A → Option A
while zero test body s = none
while (suc fuel) test body s = elim (test s) [
  | true ↦ while fuel test body (body s)
  | false ↦ some s
]

-- The same with a body that can itself fail to return.
unfoldable pub while_some {ℓ} :
    {A : Type ℓ} (fuel : ℕ) (go : A → Bool) (next : A → Option A) → A → Option A
while_some zero go next s = none
while_some (suc fuel) go next s = elim (go s) [
  | true ↦ elim (next s) [ none ↦ none | some s' ↦ while_some fuel go next s' ]
  | false ↦ some s
]

pub while_some-go {ℓ} :
    {A : Type ℓ} (fuel : ℕ) (go : A → Bool) (next : A → Option A) (s s' : A)
    → go s ≡ true
    → next s ≡ some s'
    → while_some (suc fuel) go next s ≡ while_some fuel go next s'
unfolding while_some
while_some-go fuel go next s s' on step = rw (on, step, while_some)

pub while_some-stop {ℓ} :
    {A : Type ℓ} (fuel : ℕ) (go : A → Bool) (next : A → Option A) (s : A)
    → go s ≡ false
    → while_some (suc fuel) go next s ≡ some s
unfolding while_some
while_some-stop fuel go next s off = rw (off, while_some)

-- A loop that has ended in a state with the property `P`, by its test.
pub record Ends {ℓ κ} {S : Type ℓ} (P : S → Type κ) (test : S → Bool) (r : Option S)
    : Type (ℓ ⊔ κ) where
  pub final : S
  pub returns : r ≡ some final
  pub holds : P final
  pub stopped : test final ≡ false

-- An invariant, and a measure below the fuel that each round lowers.
pub while_lem {ℓ κ} :
    {A : Type ℓ} (inv : A → Type κ) (size : A → ℕ) (go : A → Bool) (next : A → A)
    → ((x : A) → inv x → go x ≡ true → inv (next x) × (size (next x) < size x))
    → (fuel : ℕ) (x : A) → size x < fuel
    → inv x
    → Ends inv go (while fuel go next x)
unfolding while
while_lem inv size go next keep zero x m h = absurd (omega arith)
while_lem inv size go next keep (suc fuel) x m h = elim (Bool-cases (go x)) [
  | inl on ↦
      rw (on, while)
        (while_lem inv size go next keep fuel (next x) (omega (arith, (keep x h on).1))
          (keep x h on).0)
  | inr off ↦ rw (off, while) (record { final = x; returns = refl; holds = h; stopped = off })
]

-- A loop whose test fails at once changes nothing.
pub while_stop {ℓ} :
    {S : Type ℓ} (fuel : ℕ) (test : S → Bool) (body : S → S) (s : S)
    → 0 < fuel
    → test s ≡ false
    → while fuel test body s ≡ some s
unfolding while
while_stop zero test body s f e = absurd (omega arith)
while_stop (suc fuel) test body s f e = rw (e, while)

-- `for (i = 0; i < n; i++) s = body i s`
unfoldable pub for_up {ℓ} : {S : Type ℓ} → ℕ → (ℕ → S → S) → S → S
for_up zero body s = s
for_up (suc n) body s = body n (for_up n body s)

-- Induction over the rounds of such a loop.
pub for_up_lem {ℓ κ} :
    {S : Type ℓ} (P : ℕ → S → Type κ) (n : ℕ) (body : ℕ → S → S) (s : S)
    → P 0 s
    → ((i : ℕ) (x : S) → i < n → P i x → P (suc i) (body i x))
    → P n (for_up n body s)
unfolding for_up
for_up_lem P zero body s h keep = h
for_up_lem P (suc n) body s h keep =
    keep n _ (omega arith) (for_up_lem P n body s h (λ i x lt p. keep i x (omega arith) p))
