-- ===== src/Firstfit/Find.antt =====
-- `FIRSTFIT::find_len` against its description: the least start of a run of equal bits.
use ckernel.Prelude.{ℕ, zero, suc, ◌+◌, ◌≤◌, ◌<◌, ◌≡◌, refl}
use ckernel.Prelude.{◌≢◌, ◌⊎◌, inl, inr, Bool, false, some, arith, Bool-cases, ◌==◌}
use ckernel.Word.{all_ones}
use ckernel.Firstfit.{Firstfit, differs, find_len_loop, find_len}
use ckernel.Firstfit.Bitmap.{used, IsWhole, test_lem}
use native.Mathlib.Decide.{dec_lt}

-- The map is whole and has a bit for each page.
pub record IsBounded (a : Firstfit) : Type 0 where
  pub whole : IsWhole a
  pub fits : a.allocator_length ≤ 32768

module _ (a : Firstfit) (len : ℕ) (val : Bool) where
  -- The pages `s` to `s + len` exist and are all in use, or all free.
  pub record IsRun (s : ℕ) : Type 0 where
    pub inside : s + len ≤ a.allocator_length
    pub same : (j : ℕ) → s ≤ j → j < s + len → used a j ≡ val

  abbrev pub IsFirstRun : ℕ → Type 0
  IsFirstRun r = (IsRun r × ((s : ℕ) → IsRun s → r ≤ s)) ⊎ ((r ≡ all_ones) × ((s : ℕ) → ¬ IsRun s))

module _ (a : Firstfit) (len : ℕ) (val : Bool) (bounded : IsBounded a) where
  -- What the loop knows at index `i`.
  record IsScanned (i count idx : ℕ) : Type 0 where
    short : count < len
    here : idx + count ≡ i
    run : (j : ℕ) → idx ≤ j → j < i → used a j ≡ val
    earlier : (s : ℕ) → s < idx → ¬ IsRun a len val s

  next_other :
      (i count idx : ℕ) → IsScanned i count idx → used a i ≢ val → IsScanned (i + 1) 0 (i + 1)
  next_other i count idx v other = record {
    short = omega arith;
    here = omega arith;
    run = λ j p q. absurd (omega arith);
    earlier = λ s p r. elim (dec_lt s idx) [
      | yes before ↦ v.earlier s before r
      | no after ↦ other (r.same i (omega arith) (omega arith))
    ];
  }

  next_same :
      (i count idx : ℕ)
      → IsScanned i count idx
      → used a i ≡ val
      → count + 1 ≢ len
      → IsScanned (i + 1) (count + 1) idx
  next_same i count idx v same ne = record {
    short = omega arith;
    here = omega arith;
    run = λ j p q. elim (dec_lt j i) [
      | yes before ↦ v.run j p before
      | no after ↦ let e : j ≡ i = omega arith in rw e same
    ];
    earlier = v.earlier;
  }

  found :
      (left i count idx : ℕ)
      → i + suc left ≡ a.allocator_length
      → IsScanned i count idx
      → used a i ≡ val
      → count + 1 ≡ len
      → IsRun a len val idx
  found left i count idx e v same full = record {
    inside = omega arith;
    same = λ j p q. elim (dec_lt j i) [
      | yes before ↦ v.run j p before
      | no after ↦ let at : j ≡ i = omega arith in rw at same
    ];
  }

  find_len_loop_lem :
      (left i count idx : ℕ)
      → i + left ≡ a.allocator_length
      → IsScanned i count idx
      → (r : ℕ) × (find_len_loop a len val left i count idx ≡ some r) × IsFirstRun a len val r
  unfolding find_len_loop
  find_len_loop_lem zero i count idx e v =
      (all_ones, refl, inr (refl, λ s r. v.earlier s (omega (arith, r.inside)) r))
  find_len_loop_lem (suc left) i count idx e v =
      rw (test_lem a i bounded.whole (omega (arith, bounded.fits)))
        (elim (Bool-cases (differs (used a i) val)) [
          | inl other ↦
              rw (other, pos-len)
                (find_len_loop_lem left (i + 1) 0 (i + 1) (omega arith)
                  (next_other i count idx v (λ same. ground arith)))
          | inr same ↦ rw same (elim (Bool-cases (count + 1 == len)) [
            | inl full ↦ rw full (
              idx,
              refl,
              inl (
                found left i count idx e v (ground arith) (ground arith),
                λ s r. elim (dec_lt s idx) [
                  | yes p ↦ absurd (v.earlier s p r)
                  | no p ↦ omega arith
                ],
              ),
            )
            | inr short ↦ rw short (
                find_len_loop_lem left (i + 1) (count + 1) idx (omega arith)
                  (next_same i count idx v (ground arith) (λ eq. ground arith)))
          ])
        ])
    where
      pos-len : (0 == len) ≡ false
      pos-len = ground (arith, v.short)

  -- In an area of at most 32768 pages, for a nonzero length, `find_len` never reads outside the map; it
  -- returns the lowest start of a run of `len` pages that are all in use (or all free, by `val`), and
  -- ~0 exactly if there is no such run.
  pub find_len_lem : 0 < len → (r : ℕ) × (find_len a len val ≡ some r) × IsFirstRun a len val r
  unfolding find_len
  find_len_lem pos = find_len_loop_lem a.allocator_length 0 0 0 (omega arith) (record {
    short = pos;
    here = omega arith;
    run = λ j p q. absurd (omega arith);
    earlier = λ s p r. absurd (omega arith);
  })
