-- ===== src/Kernel/Start/Text.antt =====
-- The log of the start, from `init_pmm` on (lumos/kernel/kernel.c).
use osd.Base.{ℕ, Memory, List, ◌∷◌, ◌++◌}
use osd.Base.{Option, some, ◌≡◌, ap}
use osd.Kernel.{Image}
use osd.Pmm.Init.{Scan, Boot, ready, scan_sections, init_pmm}
use osd.Pmm.Logged.Start.{scan_limit, scan_start, init_text}
use osd.Base.{none, ◌∙◌}
use osd.Kernel.Blocks.{calls_text}

abbrev or_start : Option Scan → Scan
or_start none = record { section = 0; zone = 0; size = 0; mem = λ a. 0 }
or_start (some s) = s

abbrev or_empty : Option Boot → Memory
or_empty (some (ready m)) = m
or_empty _ = λ a. 0

module _ (fuel : ℕ) (unknown : Memory) (image : Image) (m : Memory) (b : ℕ) (zs : List ℕ) where
  abbrev pub scan_result : Option Scan
  scan_result =
      scan_sections fuel image.kernel_end
        (scan_limit fuel unknown image.kernel_start image.kernel_end image.offset m b)
        (scan_start fuel unknown image.kernel_start image.kernel_end image.offset m b)

  abbrev pub text_between : Scan → Memory → List ℕ
  text_between s m' =
      init_text fuel unknown image.kernel_start image.kernel_end image.offset m b s m'
        (image.kernel_end ∷ zs)
      ++ calls_text fuel unknown m' image.kernel_end zs

  -- What `init_pmm`, the two allocations and the return of the first say, for the memory `m` and the
  -- boot loader's structure `b`, where the zones are at the kernel's end and at `zs`.
  pub start_text : List ℕ
  start_text =
      text_between (or_start scan_result)
        (or_empty (init_pmm fuel image.kernel_start image.kernel_end image.offset m b))

  pub start_text_lem :
      (s : Scan) (m' : Memory)
      → scan_result ≡ some s
      → init_pmm fuel image.kernel_start image.kernel_end image.offset m b ≡ some (ready m')
      → start_text ≡ text_between s m'
  unfolding start_text
  start_text_lem s m' e e' =
      ap (λ (o : Option Boot). text_between (or_start scan_result) (or_empty o)) e'
      ∙ ap (λ (o : Option Scan). text_between (or_start o) m') e
