-- ===== src/Pmm/Refinement.antt =====
-- What pmm.cpp promises to its clients, without bitmaps and counters, and that it keeps the promise in every
-- call.
use ckernel.Prelude.{ℕ, ◌<◌, ◌≡◌, ◌≢◌, inl, inr, Bool, true, false, List, [], ◌∷◌, ◌++◌, some, All}
use mathlib.Core.Path.{subst}
use ckernel.Firstfit.Ledger.{Block}
use ckernel.Firstfit.Disjoint.{IsApart}
use ckernel.Firstfit.Handout.{NoRoom}
use ckernel.Pmm.{Pmm}
use ckernel.Pmm.Space.{IsPmm}
use ckernel.Pmm.History.{
  State, Step, takes, refused, takes_at, refused_at, gives, Reach, here, next, block, IsKernelBlock,
  IsOtherBlock,
}
use ckernel.Pmm.Consistent.{IsManagedBlock, IsConsistent}
use ckernel.Pmm.Moves.{IsAnswer, IsAnswerAt}
use ckernel.Pmm.Reachable.{
  Step-IsConsistent, Reach-IsConsistent, answer, answer_at, then_other, then_kernel,
}
use ckernel.Pmm.Held.{new-IsApart}

pub data Area : Type 0 where
  kernel_space : Area
  other_space : Area

-- The block is one of whole pages of the area.
abbrev pub InArea : Pmm → Area → Block → Type 0
InArea p kernel_space = IsKernelBlock p
InArea p other_space = IsOtherBlock p

-- A call of a client with its answer: a request for `len` pages of an area and the address, a request for a
-- block of an area and the result, a block that is given back.
pub data Event : Type 0 where
  asks : (area : Area) → (len addr : ℕ) → Event
  asks_at : (area : Area) → (b : Block) → (ok : Bool) → Event
  returns : (b : Block) → Event

-- The call of a step.
pub event : {s t : State} → Step s t → Event
event (takes len addr q pos (inl ran) nonzero) = asks other_space len addr
event (takes len addr q pos (inr ran) nonzero) = asks kernel_space len addr
event (refused len q pos (inl ran)) = asks other_space len 0
event (refused len q pos (inr ran)) = asks kernel_space len 0
event (takes_at b q (inl ran)) = asks_at other_space b true
event (takes_at b q (inr ran)) = asks_at kernel_space b true
event (refused_at b q (inl ran)) = asks_at other_space b false
event (refused_at b q (inr ran)) = asks_at kernel_space b false
event (gives before after b q e ran) = returns b

-- The calls on the way to a state, the last one first.
unfoldable pub events : {s t : State} → Reach s t → List Event
events here = []
events (next r step) = event step ∷ events r

-- The abstract manager: which answer a call may have, and the blocks that are out before and after it. Pages are
-- granted inside the area and overlap no other block; a request for pages of an area is refused only if every
-- block of that length in the area overlaps one, a request for a block only if this block does.
pub data Serves (p : Pmm) (kept : List Block) : Event → List Block → List Block → Type 0 where
  grants :
      {live : List Block} (area : Area) (len addr : ℕ)
      → addr ≢ 0
      → InArea p area (block addr len)
      → All (IsApart (block addr len)) (kept ++ live)
      → Serves p kept (asks area len addr) live (block addr len ∷ live)
  refuses :
      {live : List Block} (area : Area) (len : ℕ)
      → 0 < len
      → NoRoom (InArea p area) (kept ++ live) len
      → Serves p kept (asks area len 0) live live
  grants_at :
      {live : List Block} (area : Area) (b : Block)
      → InArea p area b
      → All (IsApart b) (kept ++ live)
      → Serves p kept (asks_at area b true) live (b ∷ live)
  refuses_at :
      {live : List Block} (area : Area) (b : Block)
      → InArea p area b
      → ¬ All (IsApart b) (kept ++ live)
      → Serves p kept (asks_at area b false) live live
  takes_back :
      {live : List Block} (before after : List Block) (b : Block)
      → live ≡ before ++ b ∷ after
      → Serves p kept (returns b) live (before ++ after)

-- A sequence of calls, the last one first.
pub data Served (p : Pmm) (kept : List Block) (live : List Block)
    : List Event → List Block → Type 0 where
  nothing : Served p kept live [] live
  then_serves :
      {e : Event} {es : List Event} {mid out : List Block}
      → Served p kept live es mid
      → Serves p kept e mid out
      → Served p kept live (e ∷ es) out

module _ (p : Pmm) (kept : List Block) (v : IsPmm p) (placed : All (IsManagedBlock p) kept) where
  module _ (s : State) (c : IsConsistent p kept s) where
    no_room :
        (Space : Block → Type 0) (len : ℕ) (q : Pmm)
        → IsAnswer p kept s Space len (some (0, q))
        → NoRoom Space (kept ++ s.live) len
    no_room Space len q (addr, q', e, out) = elim out [
      | inl (_, _, none_left) ↦ none_left
      | inr (nonzero, _, _) ↦ absurd (nonzero (cc e))
    ]

    inside :
        (Space : Block → Type 0) (len addr : ℕ) (q : Pmm)
        → addr ≢ 0
        → IsAnswer p kept s Space len (some (addr, q))
        → Space (block addr len)
    inside Space len addr q nonzero (addr', q', e, out) = elim out [
      | inl (null, _, _) ↦ absurd (nonzero (cc (e, null)))
      | inr (_, lies, _) ↦
          let same : addr' ≡ addr = cc e in subst (λ a. Space (block a len)) same lies
    ]

    overlaps :
        (b : Block) (q : Pmm)
        → IsAnswerAt p kept s b (some (false, q))
        → ¬ All (IsApart b) (kept ++ s.live)
    overlaps b q (ok, q', e, out) = elim out [
      | inl (_, _, overlap) ↦ overlap
      | inr (granted, _) ↦ absurd (cc (e, granted))
    ]

  Step-Serves :
      {s t : State} (step : Step s t)
      → IsConsistent p kept s
      → Serves p kept (event step) s.live t.live
  unfolding event
  Step-Serves {s} (takes len addr q pos (inl ran) nonzero) c =
      grants other_space len addr nonzero
        (inside s c (IsOtherBlock p) len addr q nonzero
          (answer p kept v s c len (some (addr, q)) pos (inl ran)))
        (new-IsApart p kept v q s.live (block addr len) placed
          (Step-IsConsistent p kept v (takes len addr q pos (inl ran) nonzero) c))
  Step-Serves {s} (takes len addr q pos (inr ran) nonzero) c =
      grants kernel_space len addr nonzero
        (inside s c (IsKernelBlock p) len addr q nonzero
          (answer p kept v s c len (some (addr, q)) pos (inr ran)))
        (new-IsApart p kept v q s.live (block addr len) placed
          (Step-IsConsistent p kept v (takes len addr q pos (inr ran) nonzero) c))
  Step-Serves {s} (refused len q pos (inl ran)) c =
      refuses other_space len pos
        (no_room s c (IsOtherBlock p) len q (answer p kept v s c len (some (0, q)) pos (inl ran)))
  Step-Serves {s} (refused len q pos (inr ran)) c =
      refuses kernel_space len pos
        (no_room s c (IsKernelBlock p) len q (answer p kept v s c len (some (0, q)) pos (inr ran)))
  Step-Serves {s} (takes_at b q (inl (o, ran))) c =
      grants_at other_space b (then_other p kept v s c b o) (
        new-IsApart p kept v q s.live b placed
          (Step-IsConsistent p kept v (takes_at b q (inl (o, ran))) c))
  Step-Serves {s} (takes_at b q (inr (k, ran))) c =
      grants_at kernel_space b (then_kernel p kept v s c b k) (
        new-IsApart p kept v q s.live b placed
          (Step-IsConsistent p kept v (takes_at b q (inr (k, ran))) c))
  Step-Serves {s} (refused_at b q (inl (o, ran))) c =
      refuses_at other_space b (then_other p kept v s c b o)
        (overlaps s c b q (answer_at p kept v s c b (some (false, q)) (inl (o, ran))))
  Step-Serves {s} (refused_at b q (inr (k, ran))) c =
      refuses_at kernel_space b (then_kernel p kept v s c b k)
        (overlaps s c b q (answer_at p kept v s c b (some (false, q)) (inr (k, ran))))
  Step-Serves {s} (gives before after b q e ran) c = takes_back before after b e

  -- From a consistent manager, every sequence of steps of the clients is, call for call and with the same
  -- answers, one that the abstract manager allows on the blocks that they hold: an address that is granted is not 0,
  -- and its pages lie in the area that was asked and overlap no block that is kept for good or held; a
  -- request for pages of an area is refused only if every block of that length in the area overlaps one of
  -- them, a request for a block only if this block does; a block that is given back is out no more.
  pub Reach-Served :
      (s t : State)
      → IsConsistent p kept s
      → (r : Reach s t) → Served p kept s.live (events r) t.live
  unfolding events
  Reach-Served s t c here = nothing
  Reach-Served s t c (next {t = m} r step) =
      then_serves (Reach-Served s m c r) (Step-Serves step (Reach-IsConsistent p kept v s m c r))
