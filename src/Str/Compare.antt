-- ===== src/Str/Compare.antt =====
-- strcmp and strncmp.
use ckernel.Prelude.{ℕ, zero, suc, ◌+◌, ◌-◌, ◌≤◌, ◌<◌, ◌≡◌, ◌≢◌, ◌⊎◌, inl, inr, some, arith}
use ckernel.Prelude.{if◌then◌else◌, sym, ltb}
use ckernel.Prelude.Int.{pos, negsuc, ◌-ℤ◌}
use native.Mathlib.Nat.{add-zero}
use ckernel.Mem.{Memory}
use ckernel.Mem.Compare.{Agree, memcmp_lem}
use ckernel.Str.{signed8, strcmp, strncmp}
use ckernel.Str.Length.{IsString}

-- The comparison of the strings at `s` and `d` ends at index `i`.
pub record IsStop (m : Memory) (s d i : ℕ) : Type 0 where
  pub before : Agree m s d i
  pub nonzero : (j : ℕ) → j < i → m (s + j) ≢ 0
  pub stop : (m (s + i) ≡ 0) ⊎ (m (s + i) ≢ m (d + i))

IsStop-tail : (m : Memory) (s d i : ℕ) → IsStop m s d (suc i) → IsStop m (s + 1) (d + 1) i
IsStop-tail m s d i h = record {
  before = λ j p. ground (arith, h.before (suc j));
  nonzero = λ j p. ground (arith, h.nonzero (suc j));
  stop = ground (arith, h.stop);
}

shift : (a i : ℕ) → a + suc i ≡ a + 1 + i
shift a i = omega arith

head_same : (m : Memory) (s d i : ℕ) → IsStop m s d (suc i) → m s ≡ m d
head_same m s d i h = rw (add-zero s, add-zero d) at (h.before 0 (omega arith))

strcmp_stop :
    (i fuel : ℕ) (m : Memory) (s d : ℕ)
    → IsStop m s d i
    → i < fuel
    → strcmp fuel m s d ≡ some (signed8 (m (s + i)) -ℤ signed8 (m (d + i)))
unfolding strcmp
strcmp_stop i zero m s d h enough = absurd (omega arith)
strcmp_stop zero (suc fuel) m s d h enough =
    rw (add-zero s, add-zero d) (ground (arith, rw (add-zero s, add-zero d) at h.stop))
strcmp_stop (suc i) (suc fuel) m s d h enough =
    rw (shift s i, shift d i)
      (ground (
        arith,
        head_same m s d i h,
        rw (add-zero s) at (h.nonzero 0),
        strcmp_stop i fuel m (s + 1) (d + 1) (IsStop-tail m s d i h),
      ))

strncmp_stop :
    (i n : ℕ) (m : Memory) (s d : ℕ)
    → IsStop m s d i
    → strncmp m s d n ≡ (if ltb i n then pos (m (s + i)) -ℤ pos (m (d + i)) else pos 0)
unfolding strncmp
strncmp_stop i zero m s d h = ground arith
strncmp_stop zero (suc n) m s d h =
    rw (add-zero s, add-zero d) (ground (arith, rw (add-zero s, add-zero d) at h.stop))
strncmp_stop (suc i) (suc n) m s d h =
    rw (shift s i, shift d i)
      (ground (
        arith,
        head_same m s d i h,
        rw (add-zero s) at (h.nonzero 0),
        strncmp_stop i n m (s + 1) (d + 1) (IsStop-tail m s d i h),
      ))

differ_at :
    (i fuel n : ℕ) (m : Memory) (s d : ℕ)
    → IsString m s n
    → Agree m s d i
    → i ≤ n
    → m (s + i) ≢ m (d + i)
    → n < fuel
    → strcmp fuel m s d ≡ some (signed8 (m (s + i)) -ℤ signed8 (m (d + i)))
differ_at i fuel n m s d str before below differ enough =
    strcmp_stop i fuel m s d
      (record { before = before; nonzero = λ j p. str.nonzero j (omega arith); stop = inr differ })
      (omega arith)

-- For a string of `n` bytes and more than `n` rounds, `strcmp` returns 0 exactly at another copy of the
-- string; otherwise it returns the difference of the first two bytes that differ, read as signed
-- characters.
pub strcmp_lem :
    (fuel n : ℕ) (m : Memory) (src dest : ℕ)
    → IsString m src n
    → n < fuel
    → ((strcmp fuel m src dest ≡ some (pos 0)) × Agree m src dest (suc n))
      ⊎ ((i : ℕ) × (i ≤ n)
          × Agree m src dest i
          × (m (src + i) ≢ m (dest + i))
          × (strcmp fuel m src dest ≡ some (signed8 (m (src + i)) -ℤ signed8 (m (dest + i)))))
strcmp_lem fuel n m src dest s enough = elim (memcmp_lem m src dest (suc n)) [
  | inl (_, same) ↦ inl (
    rw
        (strcmp_stop n fuel m src dest
          (record {
            before = λ i h. same i (omega arith);
            nonzero = s.nonzero;
            stop = inl s.terminated;
          })
          enough)
        (ground (arith, s.terminated, same n)),
    same,
  )
  | inr (inl (_, (i, h, before, less))) ↦ inr (
    i,
    omega arith,
    before,
    omega arith,
    differ_at i fuel n m src dest s before (omega arith) (omega arith) enough,
  )
  | inr (inr (_, (i, h, before, less))) ↦ inr (
    i,
    omega arith,
    λ j p. sym (before j p),
    omega arith,
    differ_at i fuel n m src dest s (λ j p. sym (before j p)) (omega arith) (omega arith) enough,
  )
]

-- Where the first two bytes that differ are an ASCII one and one above 127, `strcmp` calls the ASCII one
-- greater, and `strncmp`, of more bytes than agree, smaller.
pub strcmp-strncmp :
    (fuel n i : ℕ) (m : Memory) (src dest : ℕ)
    → IsStop m src dest i
    → i < fuel
    → i < n
    → m (src + i) < 128
    → 128 ≤ m (dest + i)
    → m (dest + i) < 256
    → ((k : ℕ) × (strcmp fuel m src dest ≡ some (pos (suc k))))
      × ((k : ℕ) × (strncmp m src dest n ≡ negsuc k))
strcmp-strncmp fuel n i m src dest h enough more ascii high byte = (
  (m (src + i) + 255 - m (dest + i), rw (strcmp_stop i fuel m src dest h enough) (ground arith)),
  (m (dest + i) - m (src + i) - 1, rw (strncmp_stop i n m src dest h) (ground arith)),
)
