-- ===== src/Pmm/Print.antt =====
-- The debug output of lumos/arch/i386/pmm.c: `printZone`, `printBitmap` and `printZones`, which write
-- to the serial line with `logf`.
pub mod Sent
pub mod Zones
use osd.Base.{ℕ, zero, suc, ◌+◌, ◌*◌, u32, Memory, List, [], ◌∷◌, codes, while_some}
use osd.Base.{Option, some, ◌>>=◌, leb, ◌==◌, not, if◌then◌else◌}
use osd.Libc.Format.{Argument, number, Line, logf}
use osd.Pmm.Zone.{
  zone_start, zone_end, zone_length, zone_free, zone_bitmap_words, zone_bitmap, zone_next,
}

module _ (fuel : ℕ) (unknown : Memory) where
  -- A call of `logf` whose result is not used.
  pub say : List ℕ → List Argument → Line → Option Line
  say format args l = logf fuel unknown l format args >>= λ r. some r.0

  module _ (m : Memory) where
    -- The loop of `printBitmap` from index `i` on, with `n` words to go.
    pub print_words : ℕ → ℕ → ℕ → Line → Option Line
    print_words map_start zero i l = some l
    print_words map_start (suc n) i l =
        say (codes " %x ") (number (m (map_start + 4 * i)) ∷ []) l >>= λ l'.
        let rest = print_words map_start n (i + 1) l' in
        if leb 5 i then say (codes "...") [] l' else rest

    pub print_bitmap : ℕ → ℕ → Line → Option Line
    print_bitmap map_start map_words = print_words map_start map_words 0

    pub print_zone : ℕ → Line → Option Line
    print_zone z l =
        say (codes "Zone info @ %x: \n") (number z ∷ []) l
        >>= say (codes "zone start: %x\n") (number (zone_start m z) ∷ [])
        >>= say (codes "zone end: %x\n") (number (zone_end m z) ∷ [])
        >>= say (codes "zone free: %d blocks\n") (number (zone_free m z) ∷ [])
        >>= say (codes "zone length: %d\n") (number (zone_length m z) ∷ [])
        >>= say (codes "zone bitmap words: %d words : %d bytes\n")
            (number (zone_bitmap_words m z) ∷ number (u32 (zone_bitmap_words m z * 4)) ∷ [])
        >>= say (codes "bitmap location: %x\n") (number (zone_bitmap m z) ∷ [])
        >>= say (codes "bitmap contents : ") []
        >>= print_bitmap (zone_bitmap m z) (zone_bitmap_words m z)
        >>= say (codes "\n") []

    -- One round of the loop of `printZones`, on the zone and the line.
    pub print_next : ℕ × Line → Option (ℕ × Line)
    print_next (z, l) = print_zone z l >>= say (codes "\n") [] >>= λ l'. some (zone_next m z, l')

    pub print_zones : ℕ → Line → Option Line
    print_zones z l =
        say (codes "\nPhysical Memory Manger Zones\n------------------------------------\n") [] l
        >>= λ l1. while_some fuel (λ s. not (s.0 == 0)) print_next (z, l1) >>= λ s.
            say (codes "------------------------------------\n") [] s.1
