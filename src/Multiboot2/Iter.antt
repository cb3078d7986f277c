-- ===== src/Multiboot2/Iter.antt =====
-- multiboot2_iter against a walk over the list of the tags.
use ckernel.Prelude.{ℕ, zero, suc, ◌+◌, ◌<◌, ◌^◌, ◌≡◌, refl, ◌≢◌, Bool, false, some, none, arith}
use ckernel.Prelude.{List, [], ◌∷◌, length, if◌then◌else◌}
use ckernel.Word.{u64}
use ckernel.Common.{align32}
use ckernel.Mem.{Memory}
use ckernel.Multiboot2.{tag_type, tag_size, iter_loop}

abbrev pub next_tag : Memory → ℕ → ℕ
next_tag m tag = u64 (tag + align32 (tag_size m tag) 8)

-- The tags from `tag` on are those at the listed addresses, and end with an end tag.
pub data Tags (m : Memory) : ℕ → List ℕ → Type 0 where
  end : {tag : ℕ} → tag_type m tag ≡ 0 → Tags m tag []
  more :
      {tag : ℕ} {ts : List ℕ}
      → tag_type m tag ≢ 0
      → Tags m (next_tag m tag) ts
      → Tags m tag (tag ∷ ts)

-- Call `fun` on each tag until it answers true.
abbrev pub walk : {D : Type 0} → (ℕ → D → Bool × D) → List ℕ → D → D
walk fun [] d = d
walk fun (t ∷ ts) d = let (stop, d') = fun t d in if stop then d' else walk fun ts d'

-- Over a block that ends with an end tag, with more rounds than tags, the iterator ends and calls the
-- function on each tag in order until one call answers true.
pub iter_loop-walk :
    {D : Type 0} (m : Memory) (fun : ℕ → D → Bool × D) (fuel : ℕ) {tag : ℕ} {ts : List ℕ} (d : D)
    → Tags m tag ts
    → length ts < fuel
    → iter_loop m fun fuel tag d ≡ some (walk fun ts d)
unfolding iter_loop
iter_loop-walk m fun zero d ts enough = absurd (omega arith)
iter_loop-walk m fun (suc fuel) d (end e) enough = ground (arith, e)
iter_loop-walk m fun (suc fuel) d (more {tag} ne rest) enough =
    ground (arith, ne, iter_loop-walk m fun fuel (fun tag d).1 rest (omega arith))

align32-zero : align32 0 8 ≡ 0
unfolding align32
align32-zero = refl

-- A tag of size 0 that the function does not stop at keeps the iterator there for ever.
pub iter_loop_stuck :
    {D : Type 0} (m : Memory) (fun : ℕ → D → Bool × D) (fuel tag : ℕ) (d : D)
    → tag_type m tag ≢ 0
    → tag_size m tag ≡ 0
    → tag < 2 ^ 64
    → fun tag d ≡ (false, d)
    → iter_loop m fun fuel tag d ≡ none
unfolding iter_loop
iter_loop_stuck m fun zero tag d ne size small keeps = refl
iter_loop_stuck m fun (suc fuel) tag d ne size small keeps =
    let stays : u64 (tag + align32 (tag_size m tag) 8) ≡ tag =
      rw (size, align32-zero) (omega arith) in
    rw (stays, keeps) (ground (arith, ne, iter_loop_stuck m fun fuel tag d ne size small keeps))
