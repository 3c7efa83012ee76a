-- ===== src/Pmm/Logged/Start/Rounds.antt =====
-- The messages of one round of each of the two loops of `init_pmm` (lumos/arch/i386/pmm.c).
use osd.Base.{ℕ, ◌^◌, ◌<◌, u32, Memory, [], ◌∷◌, codes}
use osd.Base.{some, ◌>>=◌, Bool-cases, inl, inr, refl, arith, ◌≡◌, if◌then◌else◌}
use osd.Pmm.Zone.{zone_start, zone_end}
use osd.Pmm.Init.{
  section_base_low, section_length_low, section_type, is_skipped, Scan, scan_section, is_overlap,
  start_bit, end_bit, Reserve, reserve_zone,
}
use osd.Pmm.Print.{say}
use osd.Pmm.Print.Sent.{IsSender, plain-IsSender, pair-IsSender, IsSender-append}
use osd.Pmm.Print.Zones.{nothing-IsSender}
use osd.Pmm.Logged.{scan_section_logged, reserve_zone_logged, word_argument}
use osd.Pmm.Logged.Logs.{Logs, Logs-return, IsSender-Logs, IsSender-last}
use osd.Pmm.Logged.Messages.{section_text, overlap_text, reserve_text, entry-IsSender}

module _ (fuel : ℕ) (unknown : Memory) (enough : 2 ^ 32 < fuel) where
  pub scan_section_logged-Logs :
      (kernel_end : ℕ) (s t : Scan)
      → scan_section fuel kernel_end s ≡ some t
      → Logs
          (section_text fuel unknown s)
          t
          (λ l. scan_section_logged fuel unknown kernel_end (s, l))
  unfolding scan_section_logged
  scan_section_logged-Logs kernel_end s t e l h = elim (Bool-cases (is_skipped s.mem s.section)) [
    | inl skip ↦ rw (skip, e) (Logs-return t l (omega arith))
    | inr use_it ↦
        rw (use_it, e)
          (IsSender-last _ t _
            (entry-IsSender fuel unknown enough (section_base_low s.mem s.section)
              (section_length_low s.mem s.section) (section_type s.mem s.section))
            l (rw use_it at h))
  ]

  overlap-IsSender :
      (lo hi : ℕ) (r : Reserve)
      → IsSender (overlap_text fuel unknown lo hi r) (λ a.
        if is_overlap lo hi r.mem r.zone
        then (say fuel unknown (codes "kernel and zone overlap\n") [] a
            >>= say fuel unknown (codes "kstart bit: %d\tkend bit: %d\n") (
                word_argument (start_bit lo hi r.mem r.zone)
                ∷ word_argument (end_bit lo hi r.mem r.zone)
                ∷ []))
        else some a)
  overlap-IsSender lo hi r l h = elim (Bool-cases (is_overlap lo hi r.mem r.zone)) [
    | inr off ↦ rw off (nothing-IsSender l (omega arith))
    | inl on ↦ rw on (
        IsSender-append _ _ _ _
          (plain-IsSender fuel unknown enough (codes "kernel and zone overlap\n") refl
            (omega arith))
          (pair-IsSender fuel unknown enough (codes "kstart bit: ") (codes "\tkend bit: ")
            (codes "\n") b'd' 10 (u32 (start_bit lo hi r.mem r.zone)) b'd' 10
            (u32 (end_bit lo hi r.mem r.zone)) (inl (refl, refl)) (inl (refl, refl)) (omega arith)
            (omega arith) refl refl refl (omega arith))
          l (rw on at h))
  ]

  pub reserve_zone_logged-Logs :
      (lo hi : ℕ) (r t : Reserve)
      → reserve_zone fuel lo hi r ≡ some t
      → Logs
          (reserve_text fuel unknown lo hi r)
          t
          (λ l. reserve_zone_logged fuel unknown lo hi (r, l))
  unfolding reserve_zone_logged
  reserve_zone_logged-Logs lo hi r t e =
      IsSender-Logs _ _ _ _ _
        (pair-IsSender fuel unknown enough (codes "zone start: ") (codes "\tzone end: ")
          (codes "\n") b'x' 16 (u32 (zone_start r.mem r.zone)) b'x' 16 (u32 (zone_end r.mem r.zone))
          (inr (inl (refl, refl))) (inr (inl (refl, refl))) (omega arith) (omega arith) refl refl
          refl (omega arith))
        (IsSender-Logs _ _ _ _ _ (overlap-IsSender lo hi r) (λ l h. rw e (
          IsSender-last _ t _ (plain-IsSender fuel unknown enough (codes "\n") refl (omega arith)) l
            h)))
