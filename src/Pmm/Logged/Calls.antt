-- ===== src/Pmm/Logged/Calls.antt =====
-- `pmm_alloc`, `pmm_alloc2` and `pmm_free` of lumos/arch/i386/pmm.c with their messages.
use osd.Base.{ℕ, ◌+◌, ◌*◌, ◌/◌, ◌^◌, ◌<◌, ◌≤◌, u32, Memory, IsWords, List, [], ◌∷◌, codes, length}
use osd.Base.{some, Option-cases, ◌==◌, false, inl, inr, refl, arith, ◌≡◌}
use osd.Pmm.Zone.{
  zone_start, zone_length, zone_free, zone_bitmap, zone_last_offset, block_size, get_offset, IsZone,
  Zones,
}
use osd.Pmm.Alloc.{find_free_zone, find_word, find_bit, mark_used, mark_free}
use osd.Pmm.Alloc.Mark.{IsMarked, mark_free-IsMarked}
use osd.Pmm.Alloc.Free.{find_zone-first}
use osd.Pmm.Alloc.Search.{first_zone, first_clear, first_zone-IsZone, find_free_zone_lem}
use osd.Pmm.Alloc.Spec.{reply, alloc_spec, searched}
use osd.Com.Log.{count_ready}
use osd.Libc.Format.{Line}
use osd.Pmm.Print.{say}
use osd.Pmm.Print.Sent.{IsSender, plain-IsSender, hex-IsSender, decimal-IsSender, pair-IsSender}
use osd.Pmm.Logged.{
  refuse, alloc_in_logged, search_logged, pmm_alloc_logged, pmm_alloc2_logged, pmm_free_logged,
}
use osd.Pmm.Logged.Logs.{Logs, Logged, IsSender-Logs, IsSender-last}
use osd.Pmm.Logged.Messages.{block_text, alloc_text, free_text}

module _ (fuel : ℕ) (unknown : Memory) (enough : 2 ^ 32 < fuel) (m : Memory) where
  refuse-Logs :
      (t : List ℕ) → IsSender t (say fuel unknown t []) → Logs t (0, m) (refuse fuel unknown m t)
  unfolding refuse
  refuse-Logs t sends = IsSender-last t (0, m) _ sends

  module _ (w : IsWords m) where
    alloc_in_logged-Logs :
        (z : ℕ)
        → IsZone m z
        → let o = first_clear m (zone_bitmap m z) (zone_length m z) 0 in
          Logs (block_text fuel unknown o) (reply m z o) (alloc_in_logged fuel unknown m z 0)
    unfolding alloc_in_logged
    alloc_in_logged-Logs z zone l h =
        let k = searched fuel m w (omega arith) z zone in
        elim k.outcome [
          | inl (past, none_left) ↦
              rw (k.word_found, past, none_left)
                (refuse-Logs _ (plain-IsSender fuel unknown enough _ refl (omega arith)) l
                  (rw none_left at h))
          | inr (bit, before, bit_found, in_word, first, word) ↦
              rw (k.word_found, before, bit_found, in_word, first, word)
                (IsSender-Logs _ _ _ _ _
                  (decimal-IsSender fuel unknown enough (codes "searching in word ") (codes "\n")
                    (u32 (bit / 32 * 32)) (omega arith) refl refl (omega arith))
                  (IsSender-last _ (reply m z (some bit)) _ (
                    decimal-IsSender fuel unknown enough (codes "returning block at ") (codes "\n")
                      (u32 bit) (omega arith) refl refl (omega arith)))
                  l (rw first at h))
        ]

    search_logged-Logs :
        (first : ℕ → ℕ) (p : ℕ) (zs : List ℕ)
        → ((z : ℕ) → IsZone m z → first z ≡ 0)
        → Zones m p zs
        → length zs < fuel
        → Logs
            (alloc_text fuel unknown m zs)
            (alloc_spec m zs)
            (search_logged fuel unknown first m p)
    unfolding search_logged
    search_logged-Logs first p zs at_zero l few =
        IsSender-Logs _ _ _ _ _
          (plain-IsSender fuel unknown enough (codes "\n[pmm_alloc] : trying to allocate 1 block\n")
            refl (omega arith))
          (λ line h. elim (Option-cases (first_zone m zs)) [
            | inl e ↦
                rw (find_free_zone_lem fuel m p zs l few, e)
                  (refuse-Logs _ (plain-IsSender fuel unknown enough _ refl (omega arith)) line
                    (rw e at h))
            | inr (z, e) ↦
                let zone = first_zone-IsZone m p zs z l e in
                let real : z == 0 ≡ false = ground (arith, zone.not_null) in
                rw (find_free_zone_lem fuel m p zs l few, e, real, at_zero z zone)
                  (IsSender-Logs _ _ _ _ _
                    (hex-IsSender fuel unknown enough (codes "searching in zone starting at ")
                      (codes "\n") (u32 (zone_start m z)) (omega arith) refl refl (omega arith))
                    (alloc_in_logged-Logs z zone) line (rw e at h))
          ])

    -- On a memory of 32-bit words with a well-formed list of zones, with fuel above 2 ^ 32 and above
    -- the number of zones, and a serial line that is ready at least once for each character of the
    -- messages: `pmm_alloc` with its messages returns what the specification without them says, and
    -- has sent exactly the messages for what it found.
    pub pmm_alloc_logged-Logs :
        (p : ℕ) (zs : List ℕ)
        → Zones m p zs
        → length zs < fuel
        → Logs (alloc_text fuel unknown m zs) (alloc_spec m zs) (pmm_alloc_logged fuel unknown m p)
    unfolding pmm_alloc_logged
    pmm_alloc_logged-Logs p zs =
        search_logged-Logs (λ z. zone_last_offset m z) p zs (λ z zone. zone.hint)

    pub pmm_alloc2_logged-Logs :
        (p : ℕ) (zs : List ℕ)
        → Zones m p zs
        → length zs < fuel
        → Logs (alloc_text fuel unknown m zs) (alloc_spec m zs) (pmm_alloc2_logged fuel unknown m p)
    unfolding pmm_alloc2_logged search_logged alloc_in_logged find_free_zone find_word find_bit
        mark_used
    pmm_alloc2_logged-Logs p zs l few line =
        search_logged-Logs (λ z. 0) p zs (λ z zone. refl) l few line

  pub pmm_free_logged_lem :
      (p z addr : ℕ) (zs : List ℕ)
      → Zones m p (z ∷ zs)
      → Logs
          (free_text fuel unknown m z addr)
          (mark_free m z (get_offset (zone_start m z) addr block_size))
          (pmm_free_logged fuel unknown m p addr)
  unfolding pmm_free_logged
  pmm_free_logged_lem p z addr zs l =
      IsSender-Logs _ _ _ _ _
        (pair-IsSender fuel unknown enough (codes "\n[pmm_alloc] : trying to free 1 block at ")
          (codes " (") (codes ")\n") b'x' 16 (u32 addr) b'd' 10 (u32 addr) (inr (inl (refl, refl)))
          (inl (refl, refl)) (omega arith) (omega arith) refl refl refl (omega arith))
        (λ line h.
          let real : z == 0 ≡ false = ground (arith, l.1.not_null) in
          rw (find_zone-first fuel m p z zs l (omega arith) addr, l.0, real)
            (IsSender-Logs _ _ _ _ _
              (hex-IsSender fuel unknown enough (codes "found address in zone starting at ")
                (codes "\n") (u32 (zone_start m z)) (omega arith) refl refl (omega arith))
              (IsSender-last _ (mark_free m z (get_offset (zone_start m z) addr block_size)) _ (
                decimal-IsSender fuel unknown enough (codes "address offset : ") (codes "\n")
                  (u32 (get_offset (zone_start m z) addr block_size)) (omega arith) refl refl
                  (omega arith)))
              line h))

  -- On a memory of 32-bit words with a well-formed list of at least one zone, with fuel above 2 ^ 32
  -- and a serial line that is ready at least once for each character of the messages: `pmm_free`
  -- with its messages returns, has sent exactly the messages, and has worked on the first zone,
  -- whatever the address. With the distance of the address from that zone's start, in blocks and
  -- modulo 2 ^ 32 bytes, as the offset, it has cleared the bit at that offset from the start of that
  -- zone's bitmap, which can lie past the end of the map for an address outside the zone, and raised
  -- that zone's count of free blocks by one, modulo 2 ^ 32; no other bit from the bitmap's start on
  -- and no other word of the memory has changed.
  pub pmm_free_logged-Logs :
      IsWords m
      → (p z addr : ℕ) (zs : List ℕ) → Zones m p (z ∷ zs)
      → (line : Line) → length (free_text fuel unknown m z addr) ≤ count_ready line.reads
      → (m' : Memory) × IsMarked false
          (u32 (zone_free m z + 1))
          m
          z
          (get_offset (zone_start m z) addr block_size)
          m'
        × Logged
            (free_text fuel unknown m z addr)
            m'
            line
            (pmm_free_logged fuel unknown m p addr line)
  pmm_free_logged-Logs w p z addr zs l line ready = (
    mark_free m z (get_offset (zone_start m z) addr block_size),
    mark_free-IsMarked m w z (get_offset (zone_start m z) addr block_size) l.1,
    pmm_free_logged_lem p z addr zs l line ready,
  )
