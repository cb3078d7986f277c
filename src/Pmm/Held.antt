-- ===== src/Pmm/Held.antt =====
-- What the blocks of a consistent manager of pmm.cpp are: disjoint, as many pages as the counter says, and
-- to be given back one by one.
use ckernel.Prelude.{ℕ, ◌≤◌, ◌<◌, ◌≡◌, ◌≢◌, ◌⊎◌, inl, inr, List, [], ◌∷◌, ◌++◌, arith}
use ckernel.Prelude.{refl, ap, ◌∙◌, some, Option, All, All-append}
use mathlib.Core.List.{append-nil}
use ckernel.Firstfit.{get_used_count}
use ckernel.Firstfit.Ledger.{Block, owners, owners-middle, pages_of}
use ckernel.Firstfit.Disjoint.{IsApart, IsDisjoint, owners-IsDisjoint}
use ckernel.Pmm.{Pmm, alloc_pages, alloc_pages_kernel, get_used_pages_count}
use ckernel.Pmm.Space.{IsPmm}
use ckernel.Firstfit.Handout.{NoRoom}
use ckernel.Pmm.History.{IsKernelBlock, IsOtherBlock, State, block, Step, gives, Reach, here, next}
use ckernel.Pmm.Consistent.{IsManagedBlock, IsConsistent}
use ckernel.Pmm.Moves.{
  IsAnswer, alloc_pages-IsAnswer, alloc_pages_kernel-IsAnswer, free_pages-IsConsistent,
}
use ckernel.Pmm.Reachable.{Reach-IsConsistent}

module _ (p : Pmm) (kept : List Block) where
  managed_pages : (b : Block) → IsManagedBlock p b → 0 < b.pages
  managed_pages b (inl k) = k.some_pages
  managed_pages b (inr o) = o.some_pages

  one_owner :
      (s : State) (b : Block)
      → IsConsistent p kept s
      → IsManagedBlock p b
      → owners (kept ++ s.live) b.addr ≤ 1
  one_owner s b c (inl k) = rw k.at (ground (arith, c.kernel.owned k.idx, k.inside, k.some_pages))
  one_owner s b c (inr o) = rw o.at (ground (arith, c.other.owned o.idx, o.inside, o.some_pages))

  pub held-IsDisjoint :
      (s : State)
      → All (IsManagedBlock p) kept
      → IsConsistent p kept s
      → IsDisjoint (kept ++ s.live)
  held-IsDisjoint s placed c =
      owners-IsDisjoint (IsManagedBlock p) managed_pages (kept ++ s.live)
        (All-append (IsManagedBlock p) kept s.live placed c.placed) (λ b m. one_owner s b c m)

  pub used_pages_lem :
      (s : State) → IsConsistent p kept s → get_used_pages_count s.pmm ≡ pages_of (kept ++ s.live)
  unfolding get_used_pages_count get_used_count
  used_pages_lem s c =
      let k = c.kernel.valid in
      let o = c.other.valid in
      omega (arith, c.counted, k.balance, o.balance, k.bounded.fits, o.bounded.fits)

Reach-first : {s t u : State} → Step s t → Reach t u → Reach s u
Reach-first step here = next here step
Reach-first step (next r last) = next (Reach-first step r) last

-- Nothing is left but what is kept.
pub record IsDrained (p : Pmm) (kept : List Block) (t u : State) : Type 0 where
  pub reach : Reach t u
  pub consistent : IsConsistent p kept u
  pub none_live : u.live ≡ []

module _ (p : Pmm) (kept : List Block) (v : IsPmm p) where
  drain :
      (live : List Block) (q : Pmm)
      → IsConsistent p kept (record { pmm = q; live = live })
      → (u : State) × IsDrained p kept (record { pmm = q; live = live }) u
  drain [] q c =
      (record { pmm = q; live = [] }, record { reach = here; consistent = c; none_live = refl })
  drain (b ∷ live) q c =
      let s : State = record { pmm = q; live = b ∷ live } in
      let (q', ran, c') = free_pages-IsConsistent p kept v s c [] live b refl in
      let (u, d) = drain live q' c' in
      (
        u,
        record {
          reach = Reach-first (gives [] live b q' refl ran) d.reach;
          consistent = d.consistent;
          none_live = d.none_live;
        },
      )

  -- From a consistent manager, after every sequence of steps, all blocks that clients hold can be given back
  -- one after the other without a fault; the pages that are then counted as used are those of the blocks
  -- that are kept for good.
  pub Reach-IsDrained :
      (s t : State)
      → IsConsistent p kept s
      → Reach s t
      → (u : State) × IsDrained p kept t u × (get_used_pages_count u.pmm ≡ pages_of kept)
  Reach-IsDrained s t c r =
      let (u, d) = drain t.live t.pmm (Reach-IsConsistent p kept v s t c r) in
      let used : get_used_pages_count u.pmm ≡ pages_of (kept ++ u.live) =
        used_pages_lem p kept u d.consistent in
      (u, d, used ∙ (ap (λ l. pages_of (kept ++ l)) d.none_live ∙ ap pages_of (append-nil kept)))

  -- The answer to an allocation of `len` pages of a space: 0 and nothing changed, if there is no room, or the
  -- nonzero address of pages of the space that nobody has.
  abbrev pub IsFresh : State → (Block → Type 0) → ℕ → Option (ℕ × Pmm) → Type 0
  IsFresh t Space len r =
      (addr : ℕ) × (q : Pmm) × (r ≡ some (addr, q))
      × (((addr ≡ 0) × (q ≡ t.pmm) × NoRoom Space (kept ++ t.live) len)
          ⊎ ((addr ≢ 0) × Space (block addr len) × All (IsApart (block addr len)) (kept ++ t.live)))

  pub new-IsApart :
      (q : Pmm) (live : List Block) (b : Block)
      → All (IsManagedBlock p) kept
      → IsConsistent p kept (record { pmm = q; live = b ∷ live })
      → All (IsApart b) (kept ++ live)
  new-IsApart q live b placed c =
      (owners-IsDisjoint (IsManagedBlock p) (managed_pages p kept) (b ∷ (kept ++ live))
        (c.placed.0, All-append (IsManagedBlock p) kept live placed c.placed.1)
        (λ d m.
          rw (← owners-middle kept [] live b d.addr)
            (one_owner p kept (record { pmm = q; live = b ∷ live }) d c m))).0

  fresh :
      (t : State) (Space : Block → Type 0) (len : ℕ) (r : Option (ℕ × Pmm))
      → All (IsManagedBlock p) kept
      → IsAnswer p kept t Space len r
      → IsFresh t Space len r
  fresh t Space len r placed (addr, q, e, out) = (
    addr,
    q,
    e,
    elim out [
      | inl same ↦ inl same
      | inr (nonzero, inside, c) ↦
          inr (nonzero, inside, new-IsApart q t.live (block addr len) placed c)
    ],
  )

  -- From a consistent manager, after every sequence of steps, an allocation of a nonzero number of pages from
  -- either space touches no memory outside the bitmaps. It returns 0 and changes nothing only if every block of
  -- that many pages of the space overlaps a block that is kept for good or that a client holds; otherwise
  -- it returns an address that is not 0, of that many pages of the space, which overlap none of them.
  pub alloc_pages-Reach :
      (s t : State) (len : ℕ)
      → All (IsManagedBlock p) kept
      → IsConsistent p kept s
      → Reach s t
      → 0 < len
      → IsFresh t (IsOtherBlock p) len (alloc_pages t.pmm len)
        × IsFresh t (IsKernelBlock p) len (alloc_pages_kernel t.pmm len)
  alloc_pages-Reach s t len placed c r pos =
      let c' = Reach-IsConsistent p kept v s t c r in
      (
        fresh t (IsOtherBlock p) len (alloc_pages t.pmm len) placed
            (alloc_pages-IsAnswer p kept v t c' len pos),
        fresh t (IsKernelBlock p) len (alloc_pages_kernel t.pmm len) placed
            (alloc_pages_kernel-IsAnswer p kept v t c' len pos),
      )
