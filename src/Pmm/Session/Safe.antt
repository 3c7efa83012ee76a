-- ===== src/Pmm/Session/Safe.antt =====
-- What holds in every session of calls of `pmm_alloc` and `pmm_free` (lumos/arch/i386/pmm.c).
use osd.Base.{ℕ, ◌+◌, ◌^◌, ◌<◌, Memory, Option, none, some, List, [], ◌∷◌, length}
use osd.Base.{◌≡◌, ◌≢◌, ◌⊎◌, inl, inr, refl, ◌∙◌, sym, ap}
use native.Mathlib.Decide.{ℕ_discrete}
use osd.Pmm.Zone.Frame.{In}
use osd.Pmm.Alloc.{pmm_alloc, pmm_free}
use osd.Pmm.Session.{
  IsBlock, IsFree, Session, Removes, first, later, Step, allocates, refused, frees, Reach, start,
  next,
}
use osd.Pmm.Session.FreeSet.{Stays, Stays-refl, Stays-trans}
use osd.Pmm.Session.Calls.{IsSound, pmm_alloc-Takes, pmm_free-Gives}

abbrev pub IsDistinct : List ℕ → Type 0
IsDistinct [] = Unit {0}
IsDistinct (x ∷ xs) = (¬ In x xs) × IsDistinct xs

In-Removes : {a : ℕ} (b : ℕ) {xs ys : List ℕ} → Removes a xs ys → In b ys → In b xs
In-Removes b first i = inr i
In-Removes b (later r) (inl e) = inl e
In-Removes b (later r) (inr i) = inr (In-Removes b r i)

Removes-In : {a : ℕ} {xs ys : List ℕ} → Removes a xs ys → In a xs
Removes-In first = inl refl
Removes-In (later r) = inr (Removes-In r)

Removes-other : {a : ℕ} (b : ℕ) {xs ys : List ℕ} → Removes a xs ys → In b xs → (b ≡ a) ⊎ In b ys
Removes-other b first (inl e) = inl (sym e)
Removes-other b first (inr i) = inr i
Removes-other b (later r) (inl e) = inr (inl e)
Removes-other b (later r) (inr i) = elim (Removes-other b r i) [
  | inl e ↦ inl e
  | inr j ↦ inr (inr j)
]

Removes-IsDistinct :
    {a : ℕ} {xs ys : List ℕ} → Removes a xs ys → IsDistinct xs → IsDistinct ys × (¬ In a ys)
Removes-IsDistinct first d = (d.1, d.0)
Removes-IsDistinct {a} (later {x} r) d =
    let rest = Removes-IsDistinct r d.1 in
    (
      (λ i. d.0 (In-Removes x r i), rest.0),
      λ i. elim i [ inl e ↦ d.0 (rw (sym e) at (Removes-In r)) | inr j ↦ rest.1 j ],
    )

-- The addresses that were free at the start are divided into those still free and those held, and no
-- address is held twice.
pub record IsDivided (p : ℕ) (zs : List ℕ) (m : Memory) (t : Session) : Type 0 where
  pub sound : IsSound t.mem p zs
  pub stays : Stays m zs t.mem
  pub apart : (a : ℕ) → In a t.held → ¬ IsFree t.mem zs a
  pub distinct : IsDistinct t.held
  pub no_more : (a : ℕ) → IsFree t.mem zs a ⊎ In a t.held → IsFree m zs a
  pub no_fewer : (a : ℕ) → IsFree m zs a → IsFree t.mem zs a ⊎ In a t.held

abbrev reply_of : Option (ℕ × Memory) → ℕ × Memory
reply_of none = (0, λ a. 0)
reply_of (some r) = r

abbrev memory_of : Option Memory → Memory
memory_of none = λ a. 0
memory_of (some m) = m

module _ (fuel : ℕ) (enough : 2 ^ 20 + 128 < fuel) (p z : ℕ) (zs : List ℕ)
    (few : length (z ∷ zs) < fuel) (m : Memory) (sound : IsSound m p (z ∷ zs)) where
  allocated :
      (t : Session) (addr : ℕ) (m' : Memory)
      → IsDivided p (z ∷ zs) m t
      → pmm_alloc fuel t.mem p ≡ some (addr, m')
      → addr ≢ 0
      → IsDivided p (z ∷ zs) m (record { mem = m'; held = addr ∷ t.held })
  allocated t addr m' d call ne =
      let k = pmm_alloc-Takes fuel enough t.mem p (z ∷ zs) d.sound few in
      let same = sym call ∙ k.returns in
      let same_addr : addr ≡ k.addr = ap (λ o. (reply_of o).0) same in
      let same_mem : m' ≡ k.mem = ap (λ o. (reply_of o).1) same in
      elim k.outcome [
        | inl nothing ↦ absurd (ne (same_addr ∙ nothing.0))
        | inr (real, free, rest) ↦
            rw (same_addr, same_mem)
              (record {
                sound = k.sound;
                stays = Stays-trans m t.mem k.mem (z ∷ zs) d.stays k.stays;
                apart = λ a i f. elim i [
                  | inl e ↦ ((rest a).0 f).1 (sym e)
                  | inr j ↦ d.apart a j ((rest a).0 f).0
                ];
                distinct = (λ i. d.apart k.addr i free, d.distinct);
                no_more = λ a h. elim h [
                  | inl f ↦ d.no_more a (inl ((rest a).0 f).0)
                  | inr (inl e) ↦ rw e at (d.no_more k.addr (inl free))
                  | inr (inr i) ↦ d.no_more a (inr i)
                ];
                no_fewer = λ a f. elim (ℕ_discrete a k.addr) [
                  | yes e ↦ inr (inl (sym e))
                  | no off ↦ elim (d.no_fewer a f) [
                    | inl y ↦ inl ((rest a).1 (y, off))
                    | inr i ↦ inr (inr i)
                  ]
                ];
              })
      ]

  turned_down :
      (t : Session) (m' : Memory)
      → IsDivided p (z ∷ zs) m t
      → pmm_alloc fuel t.mem p ≡ some (0, m')
      → IsDivided p (z ∷ zs) m (record { mem = m'; held = t.held })
  turned_down t m' d call =
      let k = pmm_alloc-Takes fuel enough t.mem p (z ∷ zs) d.sound few in
      let same = sym call ∙ k.returns in
      let same_addr : 0 ≡ k.addr = ap (λ o. (reply_of o).0) same in
      let same_mem : m' ≡ k.mem = ap (λ o. (reply_of o).1) same in
      elim k.outcome [
        | inl (null, kept, none_left) ↦ rw (same_mem, kept) d
        | inr (real, free, rest) ↦ absurd (real (sym same_addr))
      ]

  given_back :
      (t : Session) (addr i : ℕ) (m' : Memory) (rest : List ℕ)
      → IsDivided p (z ∷ zs) m t
      → IsBlock t.mem z i addr
      → Removes addr t.held rest
      → pmm_free fuel t.mem p addr ≡ some m'
      → IsDivided p (z ∷ zs) m (record { mem = m'; held = rest })
  given_back t addr i m' rest d here r call =
      let held = Removes-In r in
      let from_start = d.no_more addr (inr held) in
      let ne : addr ≢ 0 = λ e. sound.null_taken (rw e at from_start) in
      let k = pmm_free-Gives fuel enough t.mem p z i addr zs d.sound here ne in
      let same_mem : m' ≡ k.mem = ap memory_of (sym call ∙ k.returns) in
      let left = Removes-IsDistinct r d.distinct in
      rw same_mem (record {
        sound = k.sound;
        stays = Stays-trans m t.mem k.mem (z ∷ zs) d.stays k.stays;
        apart = λ a j f. elim ((k.outcome a).0 f) [
          | inl g ↦ d.apart a (In-Removes a r j) g
          | inr e ↦ left.1 (rw e at j)
        ];
        distinct = left.0;
        no_more = λ a h. elim h [
          | inl f ↦ elim ((k.outcome a).0 f) [
            | inl g ↦ d.no_more a (inl g)
            | inr e ↦ rw e from_start
          ]
          | inr j ↦ d.no_more a (inr (In-Removes a r j))
        ];
        no_fewer = λ a f. elim (d.no_fewer a f) [
          | inl g ↦ inl ((k.outcome a).1 (inl g))
          | inr j ↦ elim (Removes-other a r j) [
            | inl e ↦ inl ((k.outcome a).1 (inr e))
            | inr j' ↦ inr j'
          ]
        ];
      })

  Step-IsDivided :
      {t u : Session} → Step fuel p z t u → IsDivided p (z ∷ zs) m t → IsDivided p (z ∷ zs) m u
  Step-IsDivided {t} (allocates addr m' call ne e) d = rw e (allocated t addr m' d call ne)
  Step-IsDivided {t} (refused m' call e) d = rw e (turned_down t m' d call)
  Step-IsDivided {t} (frees addr i m' rest here r call e) d =
      rw e (given_back t addr i m' rest d here r call)

  -- From a sound memory and with fuel above 2 ^ 20 + 128 and above the number of zones, after any
  -- calls of `pmm_alloc` and any calls of `pmm_free` on held blocks of the first zone: the memory is sound, no address is held twice, no
  -- held address is free, the free and the held addresses together are those that were free at the
  -- start, the zones keep their extent, and no word outside them has changed.
  pub Reach-IsDivided :
      {t : Session} → Reach fuel p z (record { mem = m; held = [] }) t → IsDivided p (z ∷ zs) m t
  Reach-IsDivided start = record {
    sound = sound;
    stays = Stays-refl m (z ∷ zs);
    apart = λ a i f. i;
    distinct = tt;
    no_more = λ a h. elim h [ inl f ↦ f | inr i ↦ absurd i ];
    no_fewer = λ a f. inl f;
  }
  Reach-IsDivided (next r s) = Step-IsDivided s (Reach-IsDivided r)
