-- ===== src/Firstfit/Range.antt =====
-- The loops of firstfit.cpp over a range of pages: `set` and `clr` of each page, and the scan for a
-- page in use.
use ckernel.Prelude.{ℕ, zero, suc, ◌+◌, ◌≤◌, ◌<◌, ◌≡◌, refl, ◌∙◌, ◌⊎◌, inl, inr, Bool, true, false}
use ckernel.Prelude.{some, ap, arith, Bool-cases, leb, ltb, ◌&&◌, if◌then◌else◌}
use native.Mathlib.Decide.{dec_lt}
use ckernel.Firstfit.{Allocator, Firstfit, set_range, clr_range, any_used}
use ckernel.Firstfit.Bitmap.{used, IsWhole, test_lem, set_lem, clr_lem}

-- `i ≤ j < i + n`
abbrev pub within : ℕ → ℕ → ℕ → Bool
within i n j = leb i j && ltb j (i + n)

-- `a'` differs from `a` in its map only, where the `n` pages from `i` on read `v`.
pub record IsFilled (v : Bool) (i n : ℕ) (a a' : Firstfit) : Type 0 where
  pub base : a'.base ≡ a.base
  pub whole : IsWhole a'
  pub pages : (j : ℕ) → used a' j ≡ (if within i n j then v else used a j)

-- What the loops leave alone.
pub base_fields :
    {v : Bool} {i n : ℕ} {a b : Firstfit}
    → IsFilled v i n a b
    → (b.allocator_start_addr ≡ a.allocator_start_addr)
      × (b.allocator_length ≡ a.allocator_length)
      × (b.allocator_free_count ≡ a.allocator_free_count)
      × (b.allocator_used_count ≡ a.allocator_used_count)
base_fields fill = (
  ap (λ (x : Allocator). x.allocator_start_addr) fill.base,
  ap (λ (x : Allocator). x.allocator_length) fill.base,
  ap (λ (x : Allocator). x.allocator_free_count) fill.base,
  ap (λ (x : Allocator). x.allocator_used_count) fill.base,
)

pub set_range_lem :
    (n i : ℕ) (a : Firstfit)
    → IsWhole a
    → i + n ≤ 32768
    → (a' : Firstfit) × (set_range n i a ≡ some a') × IsFilled true i n a a'
unfolding set_range
set_range_lem zero i a whole fits =
    (a, refl, record { base = refl; whole = whole; pages = λ j. ground arith })
set_range_lem (suc n) i a whole fits =
    let (b, ran, same, whole', one) = set_lem a i whole (omega arith) in
    let (c, ran', rest) = set_range_lem n (i + 1) b whole' (omega arith) in
    (
      c,
      rw ran ran',
      record {
        base = rest.base ∙ same;
        whole = rest.whole;
        pages = λ j. ground (arith, rest.pages j, one j);
      },
    )

pub clr_range_lem :
    (n i : ℕ) (a : Firstfit)
    → IsWhole a
    → i + n ≤ 32768
    → (a' : Firstfit) × (clr_range n i a ≡ some a') × IsFilled false i n a a'
unfolding clr_range
clr_range_lem zero i a whole fits =
    (a, refl, record { base = refl; whole = whole; pages = λ j. ground arith })
clr_range_lem (suc n) i a whole fits =
    let (b, ran, same, whole', one) = clr_lem a i whole (omega arith) in
    let (c, ran', rest) = clr_range_lem n (i + 1) b whole' (omega arith) in
    (
      c,
      rw ran ran',
      record {
        base = rest.base ∙ same;
        whole = rest.whole;
        pages = λ j. ground (arith, rest.pages j, one j);
      },
    )

abbrev pub AllFree : Firstfit → ℕ → ℕ → Type 0
AllFree a i n = (j : ℕ) → i ≤ j → j < i + n → used a j ≡ false

abbrev pub SomeUsed : Firstfit → ℕ → ℕ → Type 0
SomeUsed a i n = (j : ℕ) × (i ≤ j) × (j < i + n) × (used a j ≡ true)

pub any_used_lem :
    (n i : ℕ) (a : Firstfit)
    → IsWhole a
    → i + n ≤ 32768
    → ((any_used a n i ≡ some false) × AllFree a i n)
      ⊎ ((any_used a n i ≡ some true) × SomeUsed a i n)
unfolding any_used
any_used_lem zero i a whole fits = inl (refl, λ j p q. absurd (omega arith))
any_used_lem (suc n) i a whole fits =
    rw (test_lem a i whole (omega arith)) (elim (Bool-cases (used a i)) [
      | inl in_use ↦ inr (rw in_use, (i, omega arith, omega arith, in_use))
      | inr is_free ↦ rw is_free (elim (any_used_lem n (i + 1) a whole (omega arith)) [
        | inl (e, free) ↦ inl (
          e,
          λ j p q. elim (dec_lt i j) [
            | yes after ↦ free j (omega arith) (omega arith)
            | no here ↦ let at : j ≡ i = omega arith in rw at is_free
          ],
        )
        | inr (e, (j, p, q, r)) ↦ inr (e, (j, omega arith, omega arith, r))
      ])
    ])

pub any_used-AllFree :
    (n i : ℕ) (a : Firstfit)
    → IsWhole a
    → i + n ≤ 32768
    → AllFree a i n
    → any_used a n i ≡ some false
any_used-AllFree n i a whole fits free = elim (any_used_lem n i a whole fits) [
  | inl (e, _) ↦ e
  | inr (_, (j, p, q, in_use)) ↦ cc (free j p q)
]
