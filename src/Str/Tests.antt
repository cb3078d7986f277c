-- ===== src/Str/Tests.antt =====
-- Runs of the string functions, and their theorems, on a memory with the string "abc" at 100, "de" at
-- 200 and the byte 0xe9 at 300.
use ckernel.Prelude.{
  ℕ, zero, suc, ◌+◌, ◌-◌, ◌%◌, ◌≤◌, ◌<◌, ◌≡◌, ◌≢◌, ◌↔◌, ◌⊎◌, refl, inl, inr, some, arith,
}
use ckernel.Prelude.{[], ◌∷◌, get_or, ltb, if◌then◌else◌}
use ckernel.Prelude.Int.{pos, negsuc, ◌-ℤ◌}
use ckernel.Mem.{Memory, IsBytes}
use ckernel.Mem.Copy.{copied}
use ckernel.Mem.Compare.{Agree}
use ckernel.Str.{signed8, strlen, strcmp, strncmp, strcpy, strcat, strchr}
use ckernel.Str.{strnlen, strnlen_head, strnlen_words, zero_byte}
use ckernel.Str.Bounded.{IsPrefix, strnlen_lem}
use ckernel.Str.Length.{IsString, strlen_iff}
use ckernel.Str.Copy.{strcpy_lem, strcat_lem}
use ckernel.Str.Compare.{IsStop, strcmp_lem}

abbrev mem : Memory
mem a =
    if ltb a 200
    then get_or (b'a' ∷ b'b' ∷ b'c' ∷ []) (a - 100) 0
    else if ltb a 300
    then get_or (b'd' ∷ b'e' ∷ []) (a - 200) 0
    else get_or (0xe9 ∷ []) (a - 300) 0

runs :
    (strlen 9 mem 100 ≡ some 3)
    × (strcmp 9 mem 200 100 ≡ some (pos 3))
    × (strncmp mem 100 200 2 ≡ negsuc 2)
    × (strchr 9 mem 100 (pos b'c') ≡ some 102)
    × (strchr 9 mem 100 (pos b'x') ≡ some 0)
unfolding strlen strcmp strncmp strchr
runs = (refl, refl, refl, refl, refl)

abc_nonzero : (i : ℕ) → i < 3 → mem (100 + i) ≢ 0
abc_nonzero zero h e = cc
abc_nonzero (suc zero) h e = cc
abc_nonzero (suc (suc zero)) h e = cc
abc_nonzero (suc (suc (suc i))) h e = absurd (omega arith)

abc : IsString mem 100 3
abc = record { nonzero = abc_nonzero; terminated = refl }

de_nonzero : (i : ℕ) → i < 2 → mem (200 + i) ≢ 0
de_nonzero zero h e = cc
de_nonzero (suc zero) h e = cc
de_nonzero (suc (suc i)) h e = absurd (omega arith)

de : IsString mem 200 2
de = record { nonzero = de_nonzero; terminated = refl }

strlen_iff_example : (strlen 9 mem 100 ≡ some 3) ↔ (IsString mem 100 3 × (3 < 9))
strlen_iff_example = strlen_iff 9 mem 100 3

strcpy_lem_example : strcpy 9 mem 400 100 ≡ some (400, copied mem 400 100 4)
strcpy_lem_example = strcpy_lem 9 3 mem 400 100 abc (inr (omega arith)) (omega arith)

strcat_lem_example : strcat 9 mem 100 200 ≡ some (100, copied mem 103 200 2)
strcat_lem_example =
    strcat_lem 9 3 2 mem 100 200 abc de (omega arith) (omega arith) (inl (omega arith))
      (omega arith)

strcmp_lem_example :
    ((strcmp 9 mem 100 200 ≡ some (pos 0)) × Agree mem 100 200 4)
    ⊎ ((i : ℕ) × (i ≤ 3)
        × Agree mem 100 200 i
        × (mem (100 + i) ≢ mem (200 + i))
        × (strcmp 9 mem 100 200 ≡ some (signed8 (mem (100 + i)) -ℤ signed8 (mem (200 + i)))))
strcmp_lem_example = strcmp_lem 9 3 mem 100 200 abc (omega arith)

first_differs : IsStop mem 100 300 0
first_differs = record {
  before = λ i h. absurd (omega arith);
  nonzero = λ i h. absurd (omega arith);
  stop = inr (omega arith);
}

-- "tail" from 3 on, the only zero byte at 7.
abbrev tail : Memory
tail a = get_or (9 ∷ 0 ∷ 9 ∷ b't' ∷ b'a' ∷ b'i' ∷ 0xff ∷ 0 ∷ b'!' ∷ []) a 1 % 256

tail-IsBytes : IsBytes tail
tail-IsBytes a = omega arith

strnlen_runs :
    (strnlen 40 tail 3 20 ≡ some 4)
    × (strnlen 40 tail 3 2 ≡ some 2)
    × (strnlen 40 tail 8 20 ≡ some 20)
unfolding strnlen strnlen_head strnlen_words zero_byte
strnlen_runs = (refl, refl, refl)

strnlen_lem_example : (n : ℕ) × (strnlen 40 tail 3 20 ≡ some n) × IsPrefix tail 3 20 n
strnlen_lem_example = strnlen_lem 40 tail 3 20 tail-IsBytes (omega arith) (omega arith)
