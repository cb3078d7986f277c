-- ===== src/Firstfit/Alloc.antt =====
-- `FIRSTFIT::alloc(_len)` of firstfit.cpp: which pages it hands out, and that it keeps the
-- allocator's invariant.
use ckernel.Prelude.{ℕ, ◌+◌, ◌*◌, ◌≤◌, ◌<◌, ◌^◌, ◌≡◌, ◌⊎◌, inl, inr, true, false}
use ckernel.Prelude.{some, Option, arith, if◌then◌else◌, ◌==◌}
use ckernel.Word.{all_ones, u64}
use ckernel.Common.{page_size}
use ckernel.Firstfit.{Firstfit, find_len, rounds, count_allocated, alloc}
use ckernel.Firstfit.Bitmap.{used}
use ckernel.Firstfit.Find.{IsBounded, IsRun, find_len_lem}
use ckernel.Firstfit.Range.{IsFilled, within, base_fields, set_range_lem}
use ckernel.Firstfit.Count.{count, count-fill, count-le}

-- The invariant: the map has a bit for each page, the counters are the numbers of its used and free
-- pages, and the addresses of the pages do not wrap.
pub record IsValid (a : Firstfit) : Type 0 where
  pub bounded : IsBounded a
  pub counted : a.allocator_used_count ≡ count (used a) a.allocator_length
  pub balance : a.allocator_free_count + a.allocator_used_count ≡ a.allocator_length
  pub no_wrap : a.allocator_start_addr + a.allocator_length * page_size < 2 ^ 64

-- `a'` is `a` with the `len` pages from `idx` on taken into use and counted as such.
pub record IsTaken (a : Firstfit) (idx len : ℕ) (a' : Firstfit) : Type 0 where
  pub start : a'.allocator_start_addr ≡ a.allocator_start_addr
  pub total : a'.allocator_length ≡ a.allocator_length
  pub counter : a'.allocator_used_count ≡ a.allocator_used_count + len
  pub pages : (j : ℕ) → used a' j ≡ (if within idx len j then true else used a j)

-- Filling a run of free pages and counting them.
pub take_lem :
    {a : Firstfit} (idx len : ℕ) {b : Firstfit}
    → IsValid a
    → IsRun a len false idx
    → IsFilled true idx len a b
    → IsTaken a idx len (count_allocated len b) × IsValid (count_allocated len b)
take_lem {a} idx len {b} v run fill =
    let (start, total, free_same, used_same) = base_fields fill in
    let more : count (used b) a.allocator_length ≡ count (used a) a.allocator_length + len =
      count-fill (used a) (used b) idx len a.allocator_length run.same fill.pages run.inside in
    let room = count-le (used b) a.allocator_length in
    (
      record { start = start; total = total; counter = omega arith; pages = fill.pages },
      record {
        bounded = record { whole = fill.whole; fits = omega arith };
        counted = rw total (omega arith);
        balance = omega arith;
        no_wrap = omega arith;
      },
    )

alloc_found :
    {a : Firstfit} (len idx : ℕ)
    → IsValid a
    → find_len a len false ≡ some idx
    → IsRun a len false idx
    → (a' : Firstfit) × (alloc a len ≡ some (a.allocator_start_addr + page_size * idx, a'))
      × IsTaken a idx len a'
      × IsValid a'
unfolding alloc
alloc_found {a} len idx v found run =
    let inside = run.inside in
    let (b, ran, fill) = set_range_lem len idx a v.bounded.whole (omega arith) in
    let (taken, valid) = take_lem idx len v run fill in
    let all : rounds idx len ≡ len = omega arith in
    let valued : (idx == all_ones) ≡ false = ground arith in
    let address : u64 (a.allocator_start_addr + page_size * idx)
        ≡ a.allocator_start_addr + page_size * idx =
      omega arith in
    (count_allocated len b, rw (found, valued, all, ran, address), taken, valid)

-- The `len` free pages from `idx` on have been handed out, and no run of free pages starts earlier.
pub record IsAllocated (a : Firstfit) (len : ℕ) (result : Option (ℕ × Firstfit)) : Type 0 where
  pub idx : ℕ
  pub after : Firstfit
  pub returns : result ≡ some (a.allocator_start_addr + page_size * idx, after)
  pub run : IsRun a len false idx
  pub least : (s : ℕ) → IsRun a len false s → idx ≤ s
  pub taken : IsTaken a idx len after
  pub valid : IsValid after

-- For a nonzero length, on a valid allocator, `alloc` does not touch memory outside the map. If some
-- run of `len` free pages exists it takes exactly the pages of the lowest one into use, returns the
-- address of the first, adds `len` to the counter and leaves the allocator valid; otherwise it
-- returns 0 and changes nothing.
pub alloc_lem :
    (a : Firstfit) (len : ℕ)
    → IsValid a
    → 0 < len
    → IsAllocated a len (alloc a len)
      ⊎ ((alloc a len ≡ some (0, a)) × ((s : ℕ) → ¬ IsRun a len false s))
alloc_lem a len v pos =
    let (r, found, first) = find_len_lem a len false v.bounded pos in
    elim first [
      | inl (run, least) ↦
          (let (after, returns, taken, valid) = alloc_found len r v found run in
            inl (record {
              idx = r;
              after = after;
              returns = returns;
              run = run;
              least = least;
              taken = taken;
              valid = valid;
            }))
      | inr (e, none_free) ↦ inr (unfold alloc in rw (found, e), none_free)
    ]
