-- ===== src/Mem/Compare.antt =====
-- memcmp decides the order of two blocks of bytes.
use ckernel.Prelude.{ℕ, zero, suc, ◌+◌, ◌<◌, ◌≡◌, refl, ◌⊎◌, inl, inr, sym, ==_iff, arith}
use ckernel.Prelude.Int.{ℤ, pos, negsuc}
use ckernel.Mem.{Memory, memcmp}
use native.Mathlib.Decide.{ℕ_discrete, dec_lt}

-- The blocks agree before index `i`.
abbrev pub Agree : Memory → ℕ → ℕ → ℕ → Type 0
Agree m s1 s2 n = (i : ℕ) → i < n → m (s1 + i) ≡ m (s2 + i)

-- Lexicographic order: at the first difference the first block has the smaller byte.
abbrev pub IsBelow : Memory → ℕ → ℕ → ℕ → Type 0
IsBelow m s1 s2 n = (i : ℕ) × (i < n) × Agree m s1 s2 i × (m (s1 + i) < m (s2 + i))

Agree-suc :
    (m : Memory) (s1 s2 n : ℕ) → m s1 ≡ m s2 → Agree m (s1 + 1) (s2 + 1) n → Agree m s1 s2 (suc n)
Agree-suc m s1 s2 n e rest zero h = ground arith
Agree-suc m s1 s2 n e rest (suc i) h = ground (arith, rest i)

IsBelow-suc :
    (m : Memory) (s1 s2 n : ℕ)
    → m s1 ≡ m s2
    → IsBelow m (s1 + 1) (s2 + 1) n
    → IsBelow m s1 s2 (suc n)
IsBelow-suc m s1 s2 n e (i, h, before, less) =
    (suc i, omega arith, Agree-suc m s1 s2 i e before, ground arith)

IsBelow-here : (m : Memory) (s1 s2 n : ℕ) → m s1 < m s2 → IsBelow m s1 s2 (suc n)
IsBelow-here m s1 s2 n less = (0, omega arith, λ i h. absurd (omega arith), ground arith)

-- Result `r` is the order of the blocks of `n` bytes at `s1` and `s2`.
abbrev pub IsOrder : Memory → ℕ → ℕ → ℕ → ℤ → Type 0
IsOrder m s1 s2 n r =
    ((r ≡ pos 0) × Agree m s1 s2 n)
    ⊎ (((r ≡ negsuc 0) × IsBelow m s1 s2 n) ⊎ ((r ≡ pos 1) × IsBelow m s2 s1 n))

IsOrder-suc :
    (m : Memory) (s1 s2 n : ℕ) (r : ℤ)
    → m s1 ≡ m s2
    → IsOrder m (s1 + 1) (s2 + 1) n r
    → IsOrder m s1 s2 (suc n) r
IsOrder-suc m s1 s2 n r e (inl (z, agree)) = inl (z, Agree-suc m s1 s2 n e agree)
IsOrder-suc m s1 s2 n r e (inr (inl (z, below))) = inr (inl (z, IsBelow-suc m s1 s2 n e below))
IsOrder-suc m s1 s2 n r e (inr (inr (z, above))) =
    inr (inr (z, IsBelow-suc m s2 s1 n (sym e) above))

-- `memcmp` returns 0 if the blocks are equal, -1 if the first is lexicographically smaller in unsigned
-- bytes, and 1 if the second is.
pub memcmp_lem : (m : Memory) (s1 s2 count : ℕ) → IsOrder m s1 s2 count (memcmp m s1 s2 count)
unfolding memcmp
memcmp_lem m s1 s2 zero = inl (refl, λ i h. absurd (omega arith))
memcmp_lem m s1 s2 (suc n) = elim (ℕ_discrete (m s1) (m s2)) [
  | yes e ↦
      rw ((==_iff (m s1) (m s2)).1 e) (IsOrder-suc m s1 s2 n _ e (memcmp_lem m (s1 + 1) (s2 + 1) n))
  | no ne ↦ elim (dec_lt (m s1) (m s2)) [
    | yes less ↦ inr (inl (ground arith, IsBelow-here m s1 s2 n less))
    | no more ↦ inr (inr (ground arith, IsBelow-here m s2 s1 n (omega arith)))
  ]
]
