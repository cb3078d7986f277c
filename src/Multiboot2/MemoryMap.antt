-- ===== src/Multiboot2/MemoryMap.antt =====
-- The memory map: the callback of `BOOT_INFO::get_memory`, and the whole search.
use ckernel.Prelude.{ℕ, zero, suc, ◌+◌, ◌-◌, ◌*◌, ◌/◌, ◌^◌, ◌≤◌, ◌<◌, ◌≡◌, refl, ◌≢◌, true, false}
use ckernel.Prelude.{some, arith, List, [], ◌∷◌, ◌++◌, length, if◌then◌else◌, ◌==◌}
use ckernel.Word.{u64}
use ckernel.Mem.{Memory, load32, load64}
use ckernel.Multiboot2.{
  BootInfo, Resource, resource, tag_type, tag_size, entries_loop, get_memory_tag,
}
use ckernel.Multiboot2.{multiboot2_iter, get_memory}
use native.Mathlib.Nat.{div-mul-le_self}
use Prim.{Unit}
use ckernel.Multiboot2.Iter.{Tags, walk, iter_loop-walk}

-- The bytes of available memory in the `n` entries from `p` on.
unfoldable pub available : Memory → ℕ → ℕ → ℕ → ℕ
available m entry_size p zero = 0
available m entry_size p (suc n) =
    (if load32 m (p + 16) == 1 then load64 m (p + 8) else 0)
    + available m entry_size (p + entry_size) n

-- The number of entries of a tag.
abbrev pub entry_count : Memory → ℕ → ℕ
entry_count m tag = (tag_size m tag - 16) / load32 m (tag + 8)

suc_mul : (n k : ℕ) → suc n * k ≡ k + n * k
suc_mul n k = omega arith

entries_loop_lem :
    (n : ℕ) (m : Memory) (tag_end entry_size p len : ℕ)
    → 24 ≤ entry_size
    → p + n * entry_size ≤ tag_end
    → len < 2 ^ 64
    → entries_loop n m tag_end entry_size p len ≡ u64 (len + available m entry_size p n)
unfolding entries_loop available
entries_loop_lem zero m tag_end entry_size p len wide inside small = omega arith
entries_loop_lem (suc n) m tag_end entry_size p len wide inside small =
    let fits : p + entry_size + n * entry_size ≤ tag_end =
      omega (arith, inside, suc_mul n entry_size) in
    let step = λ (len' : ℕ) (small' : len' < 2 ^ 64).
      entries_loop_lem n m tag_end entry_size (p + entry_size) len' wide fits small' in
    let total = available m entry_size (p + entry_size) n in
    let skipped = step len small in
    let added = step (u64 (len + load64 m (p + 8))) (omega arith) in
    ground (arith, skipped, added, suc_mul n entry_size)

-- The resource that a memory map tag describes.
abbrev pub memory_of : Memory → ℕ → Resource
memory_of m tag = record {
  type = 1;
  name = some "available phy memory";
  addr = 0;
  len = u64 (available m (load32 m (tag + 8)) (tag + 16) (entry_count m tag));
  intr_no = 0;
}

get_memory_tag-other :
    (m : Memory) (tag : ℕ) (r : Resource) → tag_type m tag ≢ 6 → get_memory_tag m tag r ≡ (false, r)
unfolding get_memory_tag
get_memory_tag-other m tag r other = ground (arith, other)

get_memory_tag-mmap :
    (m : Memory) (tag : ℕ)
    → tag_type m tag ≡ 6
    → 16 ≤ tag_size m tag
    → 24 ≤ load32 m (tag + 8)
    → get_memory_tag m tag resource ≡ (true, memory_of m tag)
unfolding get_memory_tag
get_memory_tag-mmap m tag is_mmap size wide =
    let entry_size = load32 m (tag + 8) in
    let fits = div-mul-le_self (tag_size m tag - 16) entry_size in
    let loop =
      entries_loop_lem (entry_count m tag) m (tag + tag_size m tag) entry_size (tag + 16) 0 wide
        (omega arith) (omega arith) in
    ground (arith, is_mmap, loop)

-- None of the tags is a memory map.
abbrev pub NoneMmap : Memory → List ℕ → Type 0
NoneMmap m [] = Unit
NoneMmap m (t ∷ ts) = (tag_type m t ≢ 6) × NoneMmap m ts

walk-before :
    (m : Memory) (before : List ℕ) (ts : List ℕ) (r : Resource)
    → NoneMmap m before
    → walk (get_memory_tag m) (before ++ ts) r ≡ walk (get_memory_tag m) ts r
walk-before m [] ts r no_mmap = refl
walk-before m (t ∷ before) ts r (other, others) =
    rw (get_memory_tag-other m t r other) (walk-before m before ts r others)

-- Over initialised boot information whose tags end with an end tag, and of which the first memory map
-- tag has room for its header and has entries of at least 24 bytes, the search ends when it has more
-- rounds than tags. It returns available memory at address 0 whose length is the sum over the
-- available entries of that tag, modulo `2 ^ 64`.
pub get_memory_lem :
    (m : Memory) (b : BootInfo) (fuel : ℕ) (before : List ℕ) (tag : ℕ) (after : List ℕ)
    → b.inited ≡ true
    → Tags m (b.boot_info_addr + 8) (before ++ tag ∷ after)
    → length (before ++ tag ∷ after) < fuel
    → NoneMmap m before
    → tag_type m tag ≡ 6
    → 16 ≤ tag_size m tag
    → 24 ≤ load32 m (tag + 8)
    → get_memory fuel m b ≡ some (memory_of m tag)
unfolding get_memory multiboot2_iter
get_memory_lem m b fuel before tag after ready tags enough no_mmap is_mmap size wide = rw (
  ready,
  iter_loop-walk m (get_memory_tag m) fuel resource tags enough,
  walk-before m before (tag ∷ after) resource no_mmap,
  get_memory_tag-mmap m tag is_mmap size wide,
)

walk-none :
    (m : Memory) (ts : List ℕ) (r : Resource) → NoneMmap m ts → walk (get_memory_tag m) ts r ≡ r
walk-none m [] r no_mmap = refl
walk-none m (t ∷ ts) r (other, others) =
    rw (get_memory_tag-other m t r other) (walk-none m ts r others)

-- Without a memory map tag, the search ends with the empty resource, of length 0.
pub get_memory_missing :
    (m : Memory) (b : BootInfo) (fuel : ℕ) (ts : List ℕ)
    → Tags m (b.boot_info_addr + 8) ts
    → length ts < fuel
    → NoneMmap m ts
    → get_memory fuel m b ≡ some resource
unfolding get_memory multiboot2_iter
get_memory_missing m b fuel ts tags enough no_mmap = ground (
  arith,
  iter_loop-walk m (get_memory_tag m) fuel resource tags enough,
  walk-none m ts resource no_mmap,
)
