-- ===== src/Str/Copy.antt =====
-- strcpy and strcat.
use ckernel.Prelude.{ℕ, zero, suc, ◌+◌, ◌≤◌, ◌<◌, ◌≡◌, ◌≢◌, ◌⊎◌, some, arith, ap}
use ckernel.Prelude.{fun_ext}
use ckernel.Mem.{Memory, store, copy_up}
use ckernel.Mem.Copy.{copied, copy_up_lem}
use ckernel.Str.{strcpy_loop, strcpy, find_end, strcat_loop, strcat_from, strcat}
use ckernel.Str.Length.{IsString}

-- What is left of a string behind its first byte, after a store outside it.
IsString-tail :
    (m : Memory) (src n d c : ℕ)
    → IsString m src (suc n)
    → (d ≤ src) ⊎ (src + suc n < d)
    → IsString (store m d c) (src + 1) n
IsString-tail m src n d c s apart = record {
  nonzero = λ i h. ground (arith, s.nonzero (suc i));
  terminated = ground (arith, s.terminated);
}

strcpy_loop_lem :
    (fuel n dest src : ℕ) (m : Memory)
    → IsString m src n
    → (dest ≤ src) ⊎ (src + n < dest)
    → n < fuel
    → strcpy_loop fuel dest src m ≡ some (copy_up (suc n) dest src m)
unfolding strcpy_loop copy_up
strcpy_loop_lem zero n dest src m s apart enough = absurd (omega arith)
strcpy_loop_lem (suc fuel) zero dest src m s apart enough = ground (arith, s.terminated)
strcpy_loop_lem (suc fuel) (suc n) dest src m s apart enough = ground (
  arith,
  s.nonzero 0,
  strcpy_loop_lem fuel n (dest + 1) (src + 1) (store m dest (m src))
      (IsString-tail m src n dest (m src) s apart),
)

-- For a string of `n` bytes, with more than `n` rounds and a destination that does not start inside
-- the source behind its first byte, `strcpy` copies the string with its terminator as it was,
-- changes no other byte and returns the destination.
pub strcpy_lem :
    (fuel n : ℕ) (m : Memory) (dest src : ℕ)
    → IsString m src n
    → (dest ≤ src) ⊎ (src + n < dest)
    → n < fuel
    → strcpy fuel m dest src ≡ some (dest, copied m dest src (suc n))
unfolding strcpy
strcpy_lem fuel n m dest src s apart enough =
    rw (strcpy_loop_lem fuel n dest src m s apart enough)
      (ap (λ t. some (dest, t)) (fun_ext λ q. copy_up_lem (suc n) dest src m q (omega arith)))

find_end_lem :
    (fuel n d : ℕ) (m : Memory) → IsString m d n → n < fuel → find_end fuel m d ≡ some (d + n)
unfolding find_end
find_end_lem zero n d m s enough = absurd (omega arith)
find_end_lem (suc fuel) zero d m s enough = ground (arith, s.terminated)
find_end_lem (suc fuel) (suc n) d m s enough = ground (
  arith,
  s.nonzero 0,
  find_end_lem fuel n (d + 1) m (record {
    nonzero = λ i h. ground (arith, s.nonzero (suc i));
    terminated = ground (arith, s.terminated);
  }),
)

strcat_loop_lem :
    (fuel n d src : ℕ) (m : Memory)
    → IsString m src n
    → (d + n ≤ src) ⊎ (src + n < d)
    → n < fuel
    → strcat_loop fuel d src m ≡ some (copy_up n d src m)
unfolding strcat_loop copy_up
strcat_loop_lem zero n d src m s apart enough = absurd (omega arith)
strcat_loop_lem (suc fuel) zero d src m s apart enough = ground (arith, s.terminated)
strcat_loop_lem (suc fuel) (suc n) d src m s apart enough = ground (
  arith,
  s.nonzero 0,
  strcat_loop_lem fuel n (d + 1) (src + 1) (store m d (m src))
      (IsString-tail m src n d (m src) s (omega arith)),
)

-- For strings of `k` and `n` bytes at nonzero addresses that do not overlap, `strcat` copies the
-- bytes of the second over the terminator of the first and what follows it. It does not copy the
-- terminator: the byte behind the last one copied, like every other, keeps its value.
pub strcat_lem :
    (fuel k n : ℕ) (m : Memory) (dest src : ℕ)
    → IsString m dest k
    → IsString m src n
    → dest ≢ 0
    → src ≢ 0
    → (dest + k + n ≤ src) ⊎ (src + n < dest)
    → k + n < fuel
    → strcat fuel m dest src ≡ some (dest, copied m (dest + k) src n)
unfolding strcat strcat_from
strcat_lem fuel k n m dest src a b dest_set src_set apart enough =
    ground
      (arith, find_end_lem fuel k dest m a, strcat_loop_lem fuel n (dest + k) src m b, copied_same)
  where
    copied_same : copy_up n (dest + k) src m ≡ copied m (dest + k) src n
    copied_same = fun_ext λ q. copy_up_lem n (dest + k) src m q (omega arith)
