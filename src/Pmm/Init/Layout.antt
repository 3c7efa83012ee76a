-- ===== src/Pmm/Init/Layout.antt =====
-- The memory map that `init_pmm` (lumos/arch/i386/pmm.c) reads, and the zones that it lays out.
use osd.Base.{ℕ, ◌+◌, ◌^◌, ◌≤◌, ◌<◌, Memory, ◌==◌, not, ◌&&◌, ◌||◌, Bool, if◌then◌else◌}
use osd.Base.{◌≡◌, arith, ◌∙◌, List, [], ◌∷◌}
use osd.Pmm.Zone.{zone_next}
use osd.Pmm.Init.Place.{Section, IsSection, extent, IsFresh, IsFresh-frame}

-- An entry of the memory map: the size it gives, without the size field itself, the low and the high
-- half of the base, the low half of the length, and the type.
pub record Entry : Type 0 where
  pub size : ℕ
  pub base_low : ℕ
  pub base_high : ℕ
  pub length_low : ℕ
  pub kind : ℕ

abbrev pub is_usable : Entry → Bool
is_usable e = not (e.base_low == 0 && not (e.base_high == 0) || not (e.kind == 1))

abbrev pub sections_of : List Entry → List Section
sections_of [] = []
sections_of (e ∷ es) =
    if is_usable e
    then record { base = e.base_low; size = e.length_low } ∷ sections_of es
    else sections_of es

-- The map's entries stand in memory from `a` on, one behind the other, up to `limit`.
abbrev pub HasEntries : Memory → ℕ → ℕ → List Entry → Type 0
HasEntries m a limit [] = limit ≤ a
HasEntries m a limit (e ∷ es) =
    (a < limit)
    × (m a ≡ e.size)
    × (m (a + 4) ≡ e.base_low)
    × (m (a + 8) ≡ e.base_high)
    × (m (a + 12) ≡ e.length_low)
    × (m (a + 20) ≡ e.kind)
    × (a + e.size + 4 < 2 ^ 32)
    × HasEntries m (a + e.size + 4) limit es

abbrev pub AllSections : List Section → Type 0
AllSections [] = Unit {0}
AllSections (s ∷ ss) = IsSection s × AllSections ss

-- The bytes that the zones of the sections take.
abbrev pub total : List Section → ℕ
total [] = 0
total (s ∷ ss) = extent s + total ss

-- The link to what stands at `q`, if anything does.
abbrev pub link_to : ℕ → List Section → ℕ
link_to q [] = 0
link_to q (s ∷ ss) = q

-- The zones of the sections from `p` on, each linked to the next; `used` says which blocks are.
abbrev pub Laid : (Section → ℕ → Bool) → Memory → ℕ → List Section → Type 0
Laid used m p [] = Unit {0}
Laid used m p (s ∷ ss) =
    IsFresh (used s) m p s
    × (zone_next m p ≡ link_to (p + extent s) ss)
    × Laid used m (p + extent s) ss

pub HasEntries-frame :
    (m m' : Memory) (k a limit : ℕ) (es : List Entry)
    → limit + 24 ≤ k
    → ((x : ℕ) → x < k → m' x ≡ m x)
    → HasEntries m a limit es
    → HasEntries m' a limit es
HasEntries-frame m m' k a limit [] le same h = h
HasEntries-frame m m' k a limit (e ∷ es) le same h = (
  h.0,
  same a (omega arith) ∙ h.1,
  same (a + 4) (omega arith) ∙ h.2,
  same (a + 8) (omega arith) ∙ h.3,
  same (a + 12) (omega arith) ∙ h.4,
  same (a + 20) (omega arith) ∙ h.5,
  h.6,
  HasEntries-frame m m' k (a + e.size + 4) limit es le same h.7,
)

pub Laid-frame :
    (used : Section → ℕ → Bool) (m m' : Memory) (p : ℕ) (ss : List Section)
    → ((x : ℕ) → p ≤ x → m' x ≡ m x)
    → Laid used m p ss
    → Laid used m' p ss
Laid-frame used m m' p [] same l = tt
Laid-frame used m m' p (s ∷ ss) same l = (
  IsFresh-frame (λ x le lt ne. same x le) l.0,
  same (p + 28) (omega arith) ∙ l.1,
  Laid-frame used m m' (p + extent s) ss (λ x le. same x (omega arith)) l.2,
)
