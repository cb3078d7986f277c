-- ===== src/Pmm/Reachable.antt =====
-- The managers that the clients of pmm.cpp reach: they stay consistent, and everything can be given back.
use ckernel.Prelude.{ℕ, ◌<◌, ◌≡◌, ◌≢◌, inl, inr, true, false}
use ckernel.Prelude.{sym, Bool, List, ◌∷◌, ◌++◌, Option, some, arith}
use mathlib.Core.Path.{subst}
use ckernel.Firstfit.Ledger.{Block}
use ckernel.Pmm.{Pmm, free_pages}
use ckernel.Pmm.Space.{IsPmm}
use ckernel.Pmm.History.{
  State, Step, takes, refused, takes_at, refused_at, gives, Reach, here, next, block, Allocates,
  AllocatesAt, IsKernelBlock, IsOtherBlock,
}
use ckernel.Pmm.Consistent.{IsConsistent}
use ckernel.Pmm.Moves.{
  IsAnswer, IsAnswerAt, alloc_pages-IsAnswer, alloc_pages_kernel-IsAnswer, alloc_pages_at-IsAnswer,
  alloc_pages_kernel_at-IsAnswer, free_pages-IsConsistent,
}

-- The space that is asked for pages.
abbrev pub AskedSpace :
    (p q : Pmm) (len : ℕ) (r : Option (ℕ × Pmm)) → Allocates q len r → Block → Type 0
AskedSpace p q len r (inl e) = IsOtherBlock p
AskedSpace p q len r (inr e) = IsKernelBlock p

module _ (p : Pmm) (kept : List Block) (v : IsPmm p) where
  module _ (s : State) (c : IsConsistent p kept s) where
    took :
        {Space : Block → Type 0} (len addr : ℕ) (q : Pmm)
        → addr ≢ 0
        → IsAnswer p kept s Space len (some (addr, q))
        → IsConsistent p kept (record { pmm = q; live = block addr len ∷ s.live })
    took len addr q nonzero (addr', q', e, out) = elim out [
      | inl (is_null, _, _) ↦ absurd (nonzero (cc (e, is_null)))
      | inr (_, _, c') ↦
          let same_addr : addr' ≡ addr = cc e in
          let same_pmm : q' ≡ q = cc e in
          subst (λ a. IsConsistent p kept (record { pmm = q; live = block a len ∷ s.live }))
            same_addr
            (subst (λ r. IsConsistent p kept (record { pmm = r; live = block addr' len ∷ s.live }))
              same_pmm c')
    ]

    unchanged : (q : Pmm) → q ≡ s.pmm → IsConsistent p kept (record { pmm = q; live = s.live })
    unchanged q e = subst (λ r. IsConsistent p kept (record { pmm = r; live = s.live })) (sym e) c

    was_refused :
        {Space : Block → Type 0} (len : ℕ) (q : Pmm)
        → IsAnswer p kept s Space len (some (0, q))
        → IsConsistent p kept (record { pmm = q; live = s.live })
    was_refused len q (addr', q', e, out) = elim out [
      | inl (_, same, _) ↦ unchanged q (cc (e, same))
      | inr (nonzero, _, _) ↦ absurd (nonzero (cc e))
    ]

    took_at :
        (b : Block) (q : Pmm)
        → IsAnswerAt p kept s b (some (true, q))
        → IsConsistent p kept (record { pmm = q; live = b ∷ s.live })
    took_at b q (ok, q', e, out) = elim out [
      | inl (busy, _, _) ↦ absurd (cc (e, busy))
      | inr (_, c') ↦
          let same_pmm : q' ≡ q = cc e in
          subst (λ r. IsConsistent p kept (record { pmm = r; live = b ∷ s.live })) same_pmm c'
    ]

    was_refused_at :
        (b : Block) (q : Pmm)
        → IsAnswerAt p kept s b (some (false, q))
        → IsConsistent p kept (record { pmm = q; live = s.live })
    was_refused_at b q (ok, q', e, out) = elim out [
      | inl (_, same, _) ↦ unchanged q (cc (e, same))
      | inr (granted, _) ↦ absurd (cc (e, granted))
    ]

    pub answer :
        (len : ℕ) (r : Option (ℕ × Pmm))
        → 0 < len
        → (asked : Allocates s.pmm len r) → IsAnswer p kept s (AskedSpace p s.pmm len r asked) len r
    answer len r pos (inl e) =
        subst (IsAnswer p kept s (IsOtherBlock p) len) e (alloc_pages-IsAnswer p kept v s c len pos)
    answer len r pos (inr e) =
        subst (IsAnswer p kept s (IsKernelBlock p) len) e
          (alloc_pages_kernel-IsAnswer p kept v s c len pos)

    -- The spaces are those of the start.
    pub then_other : (b : Block) → IsOtherBlock s.pmm b → IsOtherBlock p b
    then_other b o = record {
      idx = o.idx;
      at = omega (arith, o.at, c.spaces.other_start);
      some_pages = o.some_pages;
      inside = omega (arith, o.inside, c.other.total_pages);
    }

    pub then_kernel : (b : Block) → IsKernelBlock s.pmm b → IsKernelBlock p b
    then_kernel b k = record {
      idx = k.idx;
      at = omega (arith, k.at, c.spaces.kernel_start);
      some_pages = k.some_pages;
      inside = omega (arith, k.inside, c.kernel.total_pages);
    }

    pub answer_at :
        (b : Block) (r : Option (Bool × Pmm)) → AllocatesAt s.pmm b r → IsAnswerAt p kept s b r
    answer_at b r (inl (o, e)) =
        subst (IsAnswerAt p kept s b) e (alloc_pages_at-IsAnswer p kept v s c b (then_other b o))
    answer_at b r (inr (k, e)) =
        subst (IsAnswerAt p kept s b) e
          (alloc_pages_kernel_at-IsAnswer p kept v s c b (then_kernel b k))

    gave :
        (before after : List Block) (b : Block) (q : Pmm)
        → s.live ≡ before ++ b ∷ after
        → free_pages s.pmm b.addr b.pages ≡ some q
        → IsConsistent p kept (record { pmm = q; live = before ++ after })
    gave before after b q e ran =
        let (q', ran', c') = free_pages-IsConsistent p kept v s c before after b e in
        let same_pmm : q' ≡ q = cc (ran, ran') in
        subst (λ r. IsConsistent p kept (record { pmm = r; live = before ++ after })) same_pmm c'

  pub Step-IsConsistent : {s t : State} → Step s t → IsConsistent p kept s → IsConsistent p kept t
  Step-IsConsistent {s} (takes len addr q pos ran nonzero) c =
      took s c len addr q nonzero (answer s c len (some (addr, q)) pos ran)
  Step-IsConsistent {s} (refused len q pos ran) c =
      was_refused s c len q (answer s c len (some (0, q)) pos ran)
  Step-IsConsistent {s} (takes_at b q ran) c =
      took_at s c b q (answer_at s c b (some (true, q)) ran)
  Step-IsConsistent {s} (refused_at b q ran) c =
      was_refused_at s c b q (answer_at s c b (some (false, q)) ran)
  Step-IsConsistent {s} (gives before after b q e ran) c = gave s c before after b q e ran

  -- From a consistent manager, every sequence of allocations of nonzero lengths from either space, of
  -- allocations by address of blocks of whole pages inside the space that is asked, and of giving back
  -- blocks that clients hold, whether granted or refused, leads to a consistent manager.
  pub Reach-IsConsistent : (s t : State) → IsConsistent p kept s → Reach s t → IsConsistent p kept t
  Reach-IsConsistent s t c here = c
  Reach-IsConsistent s t c (next {t = m} r step) =
      Step-IsConsistent step (Reach-IsConsistent s m c r)
