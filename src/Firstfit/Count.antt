-- ===== src/Firstfit/Count.antt =====
-- Counting the pages in use: what filling a range of free pages adds.
use ckernel.Prelude.{ℕ, zero, suc, ◌+◌, ◌≤◌, ◌<◌, min, ◌≡◌, refl, Bool, true, false, arith}
use ckernel.Prelude.{if◌then◌else◌}
use ckernel.Firstfit.Range.{within}

-- The number of `true`s of `f` below `n`.
unfoldable pub count : (ℕ → Bool) → ℕ → ℕ
count f zero = 0
count f (suc n) = if f n then count f n + 1 else count f n

pub count-le : (f : ℕ → Bool) (n : ℕ) → count f n ≤ n
unfolding count
count-le f zero = omega arith
count-le f (suc n) = ground (arith, count-le f n)

pub count-fill_min :
    (f g : ℕ → Bool) (i k n : ℕ)
    → ((j : ℕ) → i ≤ j → j < i + k → f j ≡ false)
    → ((j : ℕ) → g j ≡ (if within i k j then true else f j))
    → count g n + min n i ≡ count f n + min n (i + k)
unfolding count
count-fill_min f g i k zero free fill = omega arith
count-fill_min f g i k (suc n) free fill =
    ground (arith, free n, fill n, count-fill_min f g i k n free fill)

-- Filling `k` free places below `n` adds `k` to the count.
pub count-fill :
    (f g : ℕ → Bool) (i k n : ℕ)
    → ((j : ℕ) → i ≤ j → j < i + k → f j ≡ false)
    → ((j : ℕ) → g j ≡ (if within i k j then true else f j))
    → i + k ≤ n
    → count g n ≡ count f n + k
count-fill f g i k n free fill fits = omega (arith, count-fill_min f g i k n free fill)

pub count-false : (f : ℕ → Bool) (n : ℕ) → ((j : ℕ) → f j ≡ false) → count f n ≡ 0
unfolding count
count-false f zero none_set = refl
count-false f (suc n) none_set = ground (arith, none_set n, count-false f n none_set)
