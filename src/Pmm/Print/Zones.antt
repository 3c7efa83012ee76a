-- ===== src/Pmm/Print/Zones.antt =====
-- `printBitmap`, `printZone` and `printZones` of lumos/arch/i386/pmm.c send the text of the zones.
use osd.Base.{
  ℕ, zero, suc, ◌+◌, ◌*◌, ◌^◌, ◌≤◌, ◌<◌, u32, Memory, IsWords, List, [], ◌∷◌, ◌++◌, codes,
}
use osd.Base.{Option, some, ◌>>=◌, leb, ◌==◌, not, Bool-cases, true, length}
use osd.Base.{
  ◌≡◌, inl, inr, refl, arith, ◌∙◌, ap, sym, append-nil, append_assoc, length-append, while_some,
  while_some-go, while_some-stop,
}
use osd.Com.Log.{count_ready}
use osd.Libc.Format.{Line}
use osd.Pmm.Zone.{
  zone_start, zone_end, zone_length, zone_free, zone_bitmap_words, zone_bitmap, zone_next, Zones,
}
use osd.Pmm.Print.{say, print_words, print_bitmap, print_zone, print_next, print_zones}
use osd.Pmm.Print.Sent.{
  bytes, bytes-append, Sends, IsSender, IsSender-append, pair-IsSender, hex-IsSender,
  decimal-IsSender, plain-IsSender, words_text, zone_text,
}

pub nothing-IsSender : IsSender [] (λ l. some l)
nothing-IsSender l h = record {
  later = l.reads;
  returns = ap (λ t. some (record { reads = l.reads; sent = t })) (sym (append-nil l.sent));
  used = omega arith;
}

abbrev pub header : List ℕ
header = codes "\nPhysical Memory Manger Zones\n------------------------------------\n"

abbrev pub footer : List ℕ
footer = codes "------------------------------------\n"

-- The zones have 32-bit addresses.
abbrev pub AllShort : List ℕ → Type 0
AllShort [] = Unit {0}
AllShort (z ∷ zs) = (z < 2 ^ 32) × AllShort zs

module _ (fuel : ℕ) (unknown m : Memory) where
  abbrev pub zones_text : List ℕ → List ℕ
  zones_text [] = []
  zones_text (z ∷ zs) = (zone_text fuel unknown m z ++ codes "\n") ++ zones_text zs

module _ (fuel : ℕ) (unknown : Memory) (enough : 2 ^ 32 < fuel) (m : Memory) (w : IsWords m) where
  words-IsSender :
      (map_start n i : ℕ)
      → IsSender
          (words_text fuel unknown m map_start n i)
          (print_words fuel unknown m map_start n i)
  unfolding print_words
  words-IsSender map_start zero i = nothing-IsSender
  words-IsSender map_start (suc n) i =
      let rest = words-IsSender map_start n (i + 1) in
      IsSender-append _ _ _ _
        (hex-IsSender fuel unknown enough (codes " ") (codes " ") (m (map_start + 4 * i))
          (w (map_start + 4 * i)) refl refl (omega arith))
        (λ l h. elim (Bool-cases (leb 5 i)) [
          | inl e ↦
              rw e
                (plain-IsSender fuel unknown enough (codes "...") refl (omega arith) l (rw e at h))
          | inr e ↦ rw e (rest l (rw e at h))
        ])

  zone-IsSender :
      (z : ℕ) → z < 2 ^ 32 → IsSender (zone_text fuel unknown m z) (print_zone fuel unknown m z)
  unfolding print_zone print_bitmap
  zone-IsSender z lt =
      let newline = plain-IsSender fuel unknown enough (codes "\n") refl (omega arith) in
      let hex = λ (before : List ℕ). hex-IsSender fuel unknown enough before (codes "\n") in
      IsSender-append _ _ _ _
        (IsSender-append _ _ _ _
          (IsSender-append _ _ _ _
            (IsSender-append _ _ _ _
              (IsSender-append _ _ _ _
                (IsSender-append _ _ _ _
                  (IsSender-append _ _ _ _
                    (IsSender-append _ _ _ _
                      (IsSender-append _ _ _ _
                        (hex-IsSender fuel unknown enough (codes "Zone info @ ") (codes ": \n") z lt
                          refl refl (omega arith))
                        (hex (codes "zone start: ") (zone_start m z) (w z) refl refl (omega arith)))
                      (hex (codes "zone end: ") (zone_end m z) (w (z + 4)) refl refl (omega arith)))
                    (decimal-IsSender fuel unknown enough (codes "zone free: ") (codes " blocks\n")
                      (zone_free m z) (w (z + 12)) refl refl (omega arith)))
                  (decimal-IsSender fuel unknown enough (codes "zone length: ") (codes "\n")
                    (zone_length m z) (w (z + 8)) refl refl (omega arith)))
                (pair-IsSender fuel unknown enough (codes "zone bitmap words: ") (codes " words : ")
                  (codes " bytes\n") b'd' 10 (zone_bitmap_words m z) b'd' 10
                  (u32 (zone_bitmap_words m z * 4)) (inl (refl, refl)) (inl (refl, refl))
                  (w (z + 20)) (omega arith) refl refl refl (omega arith)))
              (hex (codes "bitmap location: ") (zone_bitmap m z) (w (z + 24)) refl refl
                (omega arith)))
            (plain-IsSender fuel unknown enough (codes "bitmap contents : ") refl (omega arith)))
          (words-IsSender (zone_bitmap m z) (zone_bitmap_words m z) 0))
        newline

  -- How the loop over the zones ends.
  record ZonesSent (zs : List ℕ) (l : Line) (r : Option (ℕ × Line)) : Type 0 where
    later : List ℕ
    returns :
        r
        ≡ some (0, record { reads = later; sent = l.sent ++ bytes (zones_text fuel unknown m zs) })
    used : count_ready later + length (zones_text fuel unknown m zs) ≡ count_ready l.reads

  while-ZonesSent :
      (rounds p : ℕ) (zs : List ℕ) (l : Line)
      → Zones m p zs
      → AllShort zs
      → length zs < rounds
      → length (zones_text fuel unknown m zs) ≤ count_ready l.reads
      → ZonesSent zs l (while_some rounds (λ s. not (s.0 == 0)) (print_next fuel unknown m) (p, l))
  unfolding print_next
  while-ZonesSent zero p zs l v short few h = absurd (omega arith)
  while-ZonesSent (suc rounds) p [] l v short few h = record {
    later = l.reads;
    returns =
        while_some-stop rounds _ _ (p, l) (ground arith)
        ∙ rw v (ap (λ t. some (0, record { reads = l.reads; sent = t })) (sym (append-nil l.sent)));
    used = omega arith;
  }
  while-ZonesSent (suc rounds) p (z ∷ zs) l v short few h =
      let one =
        IsSender-append _ _ _ _ (zone-IsSender z short.0)
          (plain-IsSender fuel unknown enough (codes "\n") refl (omega arith)) in
      let text = zone_text fuel unknown m z ++ codes "\n" in
      let size = length-append text (zones_text fuel unknown m zs) in
      let x = one l (omega (arith, size)) in
      let l' : Line = record { reads = x.later; sent = l.sent ++ bytes text } in
      let rest =
        while-ZonesSent rounds (zone_next m z) zs l' v.3 short.1 (omega arith)
          (omega (arith, size, x.used)) in
      let go : not (z == 0) ≡ true = ground (arith, v.1.not_null) in
      rw v.0 (record {
        later = rest.later;
        returns =
            while_some-go rounds (λ s. not (s.0 == 0)) (print_next fuel unknown m) (z, l)
              (zone_next m z, l') go (rw x.returns refl)
            ∙ rest.returns
            ∙ ap (λ t. some (0, record { reads = rest.later; sent = t }))
                (append_assoc l.sent (bytes text) (bytes (zones_text fuel unknown m zs))
                  ∙ ap (λ t. l.sent ++ t) (sym (bytes-append text (zones_text fuel unknown m zs))));
        used = omega (arith, size, x.used, rest.used);
      })

  -- On a memory of words with a well-formed list of zones at 32-bit addresses, with fuel above 2 ^ 32
  -- and above the number of zones, and a serial line that is ready at least once for each character,
  -- `printZones` returns, and has sent exactly the title, for each zone its address, its fields and the
  -- first words of its bitmap, and the closing line.
  pub print_zones-Sends :
      (p : ℕ) (zs : List ℕ) (l : Line)
      → Zones m p zs
      → AllShort zs
      → length zs < fuel
      → length (header ++ (zones_text fuel unknown m zs ++ footer)) ≤ count_ready l.reads
      → Sends
          (header ++ (zones_text fuel unknown m zs ++ footer))
          l
          (print_zones fuel unknown m p l)
  unfolding print_zones
  print_zones-Sends p zs l v short few h =
      let rest =
        λ (l1 : Line) (h1 : length (zones_text fuel unknown m zs ++ footer) ≤ count_ready l1.reads).
          let size = length-append (zones_text fuel unknown m zs) footer in
          let x = while-ZonesSent fuel p zs l1 v short few (omega (arith, size)) in
          let l2 : Line = record {
            reads = x.later;
            sent = l1.sent ++ bytes (zones_text fuel unknown m zs);
          } in
          let y =
            plain-IsSender fuel unknown enough footer refl (omega arith) l2
              (omega (arith, size, x.used)) in
          let ends : Sends (zones_text fuel unknown m zs ++ footer) l1 (
              while_some fuel (λ s. not (s.0 == 0)) (print_next fuel unknown m) (p, l1) >>= λ s.
              say fuel unknown footer [] s.1) =
            record {
              later = y.later;
              returns =
                  rw (x.returns, y.returns)
                    (ap (λ t. some (record { reads = y.later; sent = t }))
                      (append_assoc l1.sent (bytes (zones_text fuel unknown m zs)) (bytes footer)
                        ∙ ap (λ t. l1.sent ++ t)
                            (sym (bytes-append (zones_text fuel unknown m zs) footer))));
              used = omega (arith, size, x.used, y.used);
            } in
          ends in
      IsSender-append header (zones_text fuel unknown m zs ++ footer) _ _
        (plain-IsSender fuel unknown enough header refl (omega arith)) rest l h
