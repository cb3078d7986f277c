-- ===== src/Str/Reverse.antt =====
-- strrev.
use ckernel.Prelude.{ℕ, zero, suc, ◌+◌, ◌-◌, ◌≤◌, ◌<◌, ◌^◌, ◌≡◌, some, arith, ◌∙◌}
use ckernel.Prelude.{if◌then◌else◌, leb, ltb, ◌&&◌, Bool-cases, inl, inr, ltb→lt, ltb→ge}
use native.Mathlib.Decide.{ℕ_discrete}
use ckernel.Word.{u32}
use ckernel.Mem.{Memory, store}
use ckernel.Str.{strrev_loop, strrev}
use ckernel.Str.Length.{IsString, strlen_iff}

-- The memory in which the bytes of `str` from index `i` to index `j`, both included, are reversed.
abbrev pub turned : Memory → ℕ → ℕ → ℕ → Memory
turned m str i j q =
    if leb (str + i) q && leb q (str + j) then m (str + (i + j - (q - str))) else m q

abbrev swapped : Memory → ℕ → ℕ → ℕ → Memory
swapped m str i j = store (store m (str + i) (m (str + j))) (str + j) (m (str + i))

-- The three places that the rewriting of a byte depends on.
turned_swap :
    (m : Memory) (str i j q : ℕ)
    → i < j
    → turned (swapped m str i j) str (i + 1) (j - 1) q ≡ turned m str i j q
turned_swap m str i j q less = elim (ℕ_discrete q (str + i)) [
  | yes e ↦ rw e (ground arith)
  | no ne ↦ elim (ℕ_discrete q (str + j)) [ yes e ↦ rw e (ground arith) | no ne' ↦ ground arith ]
]

turned_short : (m : Memory) (str i j q : ℕ) → j ≤ i → m q ≡ turned m str i j q
turned_short m str i j q short = ground arith

strrev_loop_lem :
    (left : ℕ) (m : Memory) (str i j q : ℕ)
    → j ≤ i + left
    → strrev_loop left m str i j q ≡ turned m str i j q
unfolding strrev_loop
strrev_loop_lem zero m str i j q enough = turned_short m str i j q (omega arith)
strrev_loop_lem (suc left) m str i j q enough = elim (Bool-cases (ltb i j)) [
  | inl less ↦ rw less (
      strrev_loop_lem left (swapped m str i j) str (i + 1) (j - 1) q (omega arith)
      ∙ turned_swap m str i j q (ltb→lt i j less))
  | inr more ↦ rw more (turned_short m str i j q (ltb→ge i j more))
]

-- `strrev` of a string of `n` bytes, for `n` below 2 ^ 31, puts byte `n - 1 - i` at each index `i` below
-- `n`, and changes no other byte of the memory.
pub strrev_lem :
    (fuel n : ℕ) (m : Memory) (str : ℕ)
    → IsString m str n
    → n < fuel
    → n < 2 ^ 31
    → (m' : Memory) × (strrev fuel m str ≡ some m')
      × ((i : ℕ) → i < n → m' (str + i) ≡ m (str + (n - 1 - i)))
      × ((q : ℕ) → q < str → m' q ≡ m q)
      × ((q : ℕ) → str + n ≤ q → m' q ≡ m q)
unfolding strrev
strrev_lem fuel n m str s enough small =
    let cut : u32 n ≡ n = omega arith in
    (
      strrev_loop n m str 0 (n - 1),
      rw ((strlen_iff fuel m str n).1 (s, enough), cut),
      λ i h. ground (arith, strrev_loop_lem n m str 0 (n - 1) (str + i)),
      λ q h. ground (arith, strrev_loop_lem n m str 0 (n - 1) q),
      λ q h. ground (arith, strrev_loop_lem n m str 0 (n - 1) q),
    )
