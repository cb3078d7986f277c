-- ===== src/Firstfit.antt =====
-- src/libk/include/allocator.h, src/libk/src/allocator.cpp, src/libk/include/firstfit.h and
-- src/libk/src/firstfit.cpp: the first-fit page allocator over a bitmap of 512 words of 64 bits.
-- An access outside the bitmap is a fault, the `none` of the results.
pub mod Bitmap
pub mod Find
pub mod Range
pub mod Count
pub mod Alloc
pub mod AllocAt
pub mod Free
pub mod Ledger
pub mod Handout
pub mod Disjoint
pub mod Beyond
pub mod Fresh
pub mod Init
pub mod Sample
mod Tests
use ckernel.Prelude.{ℕ, zero, suc, ◌+◌, ◌-◌, ◌*◌, ◌/◌, bit_and, bit_or}
use ckernel.Prelude.{Bool, true, false, not, ◌||◌, Option, some, List, replicate}
use ckernel.Prelude.{get_elem?, set as set_elem, ltb, leb, ◌==◌, if◌then◌else◌, ◌>>=◌}
use ckernel.Word.{u64, sub64, all_ones, lnot64, ◌<<<◌, ◌>>>◌}
use ckernel.Common.{page_size}
use Prim.Native.String.{String}

-- The state of the base class.
pub record Allocator : Type 0 where
  pub tag : String
  pub allocator_start_addr : ℕ
  pub allocator_length : ℕ
  pub allocator_free_count : ℕ
  pub allocator_used_count : ℕ

pub allocator : String → ℕ → ℕ → Allocator
allocator tag addr len = record {
  tag = tag;
  allocator_start_addr = addr;
  allocator_length = len;
  allocator_free_count = len;
  allocator_used_count = 0;
}

abbrev pub bits_per_word : ℕ
bits_per_word = 8

abbrev pub mask : ℕ
mask = 0x3F

abbrev pub shift : ℕ
shift = 6

abbrev pub bits_arr_size : ℕ
bits_arr_size = page_size / bits_per_word

pub record Firstfit : Type 0 where
  pub base : Allocator
  pub open base use *
  pub map : List ℕ

-- The constructor: all bits of the map are cleared.
pub firstfit : String → ℕ → ℕ → Firstfit
unfolding allocator
firstfit tag addr len = record { base = allocator tag addr len; map = replicate bits_arr_size 0 }

-- `(uintptr_t)1 << (_idx & MASK)`
abbrev pub bit_of : ℕ → ℕ
bit_of idx = u64 (1 <<< bit_and idx mask)

pub set : Firstfit → ℕ → Option Firstfit
set a idx = do
  w ← get_elem? a.map (idx >>> shift)
  some (record a { map = set_elem a.map (idx >>> shift) (bit_or w (bit_of idx)) })

pub clr : Firstfit → ℕ → Option Firstfit
clr a idx = do
  w ← get_elem? a.map (idx >>> shift)
  some (record a { map = set_elem a.map (idx >>> shift) (bit_and w (lnot64 (bit_of idx))) })

pub test : Firstfit → ℕ → Option Bool
test a idx = do w ← get_elem? a.map (idx >>> shift); some (not (bit_and w (bit_of idx) == 0))

-- `!=` on `bool`
abbrev pub differs : Bool → Bool → Bool
differs true b = not b
differs false b = b

module _ (a : Firstfit) (len : ℕ) (val : Bool) where
  -- The loop at index `i`, with `allocator_length - i` rounds left. Both `count` and `i + 1` are at
  -- most `allocator_length`, so neither wraps.
  pub find_len_loop : ℕ → ℕ → ℕ → ℕ → Option ℕ
  find_len_loop zero i count idx = some all_ones
  find_len_loop (suc left) i count idx = do
    used ← test a i
    let other = differs used val
    let count' = if other then 0 else count + 1
    let idx' = if other then i + 1 else idx
    let rest = find_len_loop left (i + 1) count' idx'
    if count' == len then some idx' else rest

  pub find_len : Option ℕ
  find_len = find_len_loop a.allocator_length 0 0 0

-- `for (auto i = idx; i < idx + _len; i++)` over `set` and `clr`: the end of the range wraps, and a
-- range whose end has wrapped below its start has no rounds.
abbrev pub rounds : ℕ → ℕ → ℕ
rounds idx len = u64 (idx + len) - idx

pub set_range : ℕ → ℕ → Firstfit → Option Firstfit
set_range zero i a = some a
set_range (suc left) i a = do a' ← set a i; set_range left (i + 1) a'

pub clr_range : ℕ → ℕ → Firstfit → Option Firstfit
clr_range zero i a = some a
clr_range (suc left) i a = do a' ← clr a i; clr_range left (i + 1) a'

-- The scan of the second `alloc`: is a page of the range in use?
pub any_used : Firstfit → ℕ → ℕ → Option Bool
any_used a zero i = some false
any_used a (suc left) i = do
  used ← test a i
  let rest = any_used a left (i + 1)
  if used then some true else rest

abbrev pub count_allocated : ℕ → Firstfit → Firstfit
count_allocated len a = record a {
  base = record (a.base) {
    allocator_free_count = sub64 a.allocator_free_count len;
    allocator_used_count = u64 (a.allocator_used_count + len);
  };
}

abbrev pub count_freed : ℕ → Firstfit → Firstfit
count_freed len a = record a {
  base = record (a.base) {
    allocator_free_count = u64 (a.allocator_free_count + len);
    allocator_used_count = sub64 a.allocator_used_count len;
  };
}

-- `alloc(_len)`: the address, 0 if no run of `len` free pages was found.
pub alloc : Firstfit → ℕ → Option (ℕ × Firstfit)
alloc a len = do
  idx ← find_len a len false
  if idx == all_ones then some (0, a) else do
    a' ← set_range (rounds idx len) idx a
    some (u64 (a.allocator_start_addr + page_size * idx), count_allocated len a')

abbrev pub end_addr : Firstfit → ℕ
end_addr a = u64 (a.allocator_start_addr + a.allocator_length * page_size)

abbrev pub out_of_range : Firstfit → ℕ → Bool
out_of_range a addr = ltb addr a.allocator_start_addr || leb (end_addr a) addr

abbrev pub page_index : Firstfit → ℕ → ℕ
page_index a addr = (addr - a.allocator_start_addr) / page_size

-- `alloc(_addr, _len)`
pub alloc_at : Firstfit → ℕ → ℕ → Option (Bool × Firstfit)
alloc_at a addr len =
    let idx = page_index a addr in
    let n = rounds idx len in
    if out_of_range a addr then some (false, a) else do
      used ← any_used a n idx
      if used
          then some (false, a)
          else do a' ← set_range n idx a; some (true, count_allocated len a')

pub free : Firstfit → ℕ → ℕ → Option Firstfit
free a addr len =
    let idx = page_index a addr in
    if out_of_range a addr
    then some a
    else do a' ← clr_range (rounds idx len) idx a; some (count_freed len a')

unfoldable pub get_used_count : Firstfit → ℕ
get_used_count a = a.allocator_used_count

unfoldable pub get_free_count : Firstfit → ℕ
get_free_count a = a.allocator_free_count
