-- ===== src/Pmm/Logged/Messages.antt =====
-- The messages of lumos/arch/i386/pmm.c as texts.
use osd.Base.{ℕ, ◌*◌, ◌/◌, ◌^◌, ◌<◌, u32, Memory, List, [], ◌∷◌, ◌++◌, codes, length-append}
use osd.Base.{Option, none, some, if◌then◌else◌, inl, inr, refl, arith}
use osd.Libc.Format.Literal.{literal, only}
use osd.Libc.Format.Render.{converted}
use osd.Pmm.Zone.{zone_start, zone_end, zone_length, zone_bitmap, block_size, get_offset}
use osd.Pmm.Alloc.Search.{first_zone, first_clear}
use osd.Pmm.Init.{
  section_base_low, section_length_low, section_type, is_skipped, Scan, is_overlap, start_bit,
  end_bit, Reserve,
}
use osd.Pmm.Print.{say}
use osd.Pmm.Print.Sent.{IsSender, chars_of, chars_of_lem, say-IsSender}
use osd.Pmm.Logged.{word_argument}

module _ (fuel : ℕ) (unknown : Memory) where
  abbrev pub hex : ℕ → List ℕ
  hex x = chars_of fuel unknown 16 (u32 x)

  abbrev pub decimal : ℕ → List ℕ
  decimal x = chars_of fuel unknown 10 (u32 x)

  -- What an allocation says from the search for a word on, for the block that it finds.
  abbrev pub block_text : Option ℕ → List ℕ
  block_text none = codes "no free words in zone\n"
  block_text (some i) =
      (codes "searching in word " ++ (decimal (i / 32 * 32) ++ codes "\n"))
      ++ (codes "returning block at " ++ (decimal i ++ codes "\n"))

  abbrev pub zone_found_text : Memory → Option ℕ → List ℕ
  zone_found_text m none = codes "no free zones\n"
  zone_found_text m (some z) =
      (codes "searching in zone starting at " ++ (hex (zone_start m z) ++ codes "\n"))
      ++ block_text (first_clear m (zone_bitmap m z) (zone_length m z) 0)

  -- All that an allocation says.
  abbrev pub alloc_text : Memory → List ℕ → List ℕ
  alloc_text m zs =
      codes "\n[pmm_alloc] : trying to allocate 1 block\n" ++ zone_found_text m (first_zone m zs)

  -- All that the return of an address to the zone at `z` says.
  abbrev pub free_text : Memory → ℕ → ℕ → List ℕ
  free_text m z addr =
      (codes "\n[pmm_alloc] : trying to free 1 block at "
        ++ (hex addr ++ (codes " (" ++ (decimal addr ++ codes ")\n"))))
      ++ ((codes "found address in zone starting at " ++ (hex (zone_start m z) ++ codes "\n"))
          ++ (codes "address offset : "
              ++ (decimal (get_offset (zone_start m z) addr block_size) ++ codes "\n")))

  -- What a round of the first loop of `init_pmm` says, and a round of the second.
  abbrev pub section_text : Scan → List ℕ
  section_text s =
      if is_skipped s.mem s.section
      then []
      else codes "(*) base: "
        ++ (hex (section_base_low s.mem s.section)
            ++ (codes "\tlen: "
                ++ (hex (section_length_low s.mem s.section)
                    ++ (codes " bytes\ttype: "
                        ++ (decimal (section_type s.mem s.section) ++ codes "\n")))))

  abbrev pub overlap_text : ℕ → ℕ → Reserve → List ℕ
  overlap_text lo hi r =
      if is_overlap lo hi r.mem r.zone
      then codes "kernel and zone overlap\n"
        ++ (codes "kstart bit: "
            ++ (decimal (start_bit lo hi r.mem r.zone)
                ++ (codes "\tkend bit: " ++ (decimal (end_bit lo hi r.mem r.zone) ++ codes "\n"))))
      else []

  abbrev pub reserve_text : ℕ → ℕ → Reserve → List ℕ
  reserve_text lo hi r =
      (codes "zone start: "
        ++ (hex (zone_start r.mem r.zone)
            ++ (codes "\tzone end: " ++ (hex (zone_end r.mem r.zone) ++ codes "\n"))))
      ++ (overlap_text lo hi r ++ codes "\n")

  module _ (enough : 2 ^ 32 < fuel) where
    -- The line with three numbers.
    pub entry-IsSender :
        (base len kind : ℕ)
        → IsSender
            (codes "(*) base: "
              ++ (hex base
                  ++ (codes "\tlen: "
                      ++ (hex len ++ (codes " bytes\ttype: " ++ (decimal kind ++ codes "\n"))))))
            (say fuel unknown
              (codes "(*) base: %x\tlen: %x bytes\ttype: %d\n")
              (word_argument base ∷ word_argument len ∷ word_argument kind ∷ []))
    entry-IsSender base len kind =
        let a = chars_of_lem fuel unknown enough 16 (u32 base) (inr (inr refl)) (omega arith) in
        let b = chars_of_lem fuel unknown enough 16 (u32 len) (inr (inr refl)) (omega arith) in
        let c = chars_of_lem fuel unknown enough 10 (u32 kind) (inr (inl refl)) (omega arith) in
        let third = codes " bytes\ttype: " ++ (decimal kind ++ codes "\n") in
        say-IsSender fuel unknown _ _ _
          (literal (codes "(*) base: ") refl (
            converted refl (inr (inl (refl, refl))) a.0 (
              literal (codes "\tlen: ") refl (
                converted refl (inr (inl (refl, refl))) b.0 (
                  literal (codes " bytes\ttype: ") refl
                    (converted refl (inl (refl, refl)) c.0 (only (codes "\n") refl)))))))
          (omega (
            arith,
            length-append (hex base) (codes "\tlen: " ++ (hex len ++ third)),
            length-append (hex len) third,
            length-append (decimal kind) (codes "\n"),
            a.1,
            b.1,
            c.1,
          ))
