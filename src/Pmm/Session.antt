-- ===== src/Pmm/Session.antt =====
-- The allocator of lumos/arch/i386/pmm.c seen from outside: a set of free addresses, and the sessions
-- of calls of `pmm_alloc` and `pmm_free` on it.
pub mod FreeSet
pub mod Calls
pub mod Safe
pub mod Start
pub mod Machine
mod Examples
use osd.Base.{ℕ, ◌+◌, ◌*◌, ◌<◌, Memory, Option, some, List, [], ◌∷◌, ◌≡◌, ◌≢◌, false}
use osd.Pmm.Bitmap.{test_bit}
use osd.Pmm.Zone.{zone_start, zone_length, zone_bitmap, block_size}
use osd.Pmm.Zone.Frame.{In}
use osd.Pmm.Alloc.{pmm_alloc, pmm_free}

-- `addr` is the address of block `i` of the zone at `z`.
abbrev pub IsBlock : Memory → ℕ → ℕ → ℕ → Type 0
IsBlock m z i addr = (i < zone_length m z) × (addr ≡ zone_start m z + i * block_size)

-- `addr` is the address of an unused block of a zone in the list.
pub record IsFree (m : Memory) (zs : List ℕ) (addr : ℕ) : Type 0 where
  pub zone : ℕ
  pub block : ℕ
  pub listed : In zone zs
  pub here : IsBlock m zone block addr
  pub clear : test_bit m (zone_bitmap m zone) block ≡ false

-- No two zones share a block.
abbrev pub IsDisjoint : Memory → List ℕ → Type 0
IsDisjoint m zs =
    (z z' i i' addr : ℕ) → In z zs → In z' zs → IsBlock m z i addr → IsBlock m z' i' addr → z ≡ z'

-- The memory, and the addresses handed out and not yet given back.
pub record Session : Type 0 where
  pub mem : Memory
  pub held : List ℕ

pub data Removes (a : ℕ) : List ℕ → List ℕ → Type 0 where
  first : {xs : List ℕ} → Removes a (a ∷ xs) xs
  later : {x : ℕ} {xs ys : List ℕ} → Removes a xs ys → Removes a (x ∷ xs) (x ∷ ys)

-- The calls of a session on the list of zones at `p`, whose first zone is at `z`. An address that is
-- given back is held and is a block of the first zone.
pub data Step (fuel p z : ℕ) (s t : Session) : Type 0 where
  allocates :
      (addr : ℕ) (m : Memory)
      → pmm_alloc fuel s.mem p ≡ some (addr, m)
      → addr ≢ 0
      → t ≡ record { mem = m; held = addr ∷ s.held }
      → Step fuel p z s t
  refused :
      (m : Memory)
      → pmm_alloc fuel s.mem p ≡ some (0, m)
      → t ≡ record { mem = m; held = s.held }
      → Step fuel p z s t
  frees :
      (addr i : ℕ) (m : Memory) (rest : List ℕ)
      → IsBlock s.mem z i addr
      → Removes addr s.held rest
      → pmm_free fuel s.mem p addr ≡ some m
      → t ≡ record { mem = m; held = rest }
      → Step fuel p z s t

pub data Reach (fuel p z : ℕ) (s : Session) : Session → Type 0 where
  start : Reach fuel p z s s
  next : {t u : Session} → Reach fuel p z s t → Step fuel p z t u → Reach fuel p z s u
