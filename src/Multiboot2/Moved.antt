-- ===== src/Multiboot2/Moved.antt =====
-- A block of boot information at two addresses: `BOOT_INFO::get_memory` of multiboot2.cpp reads the same from
-- both.
use ckernel.Prelude.{ℕ, zero, suc, ◌+◌, ◌^◌, ◌≤◌, ◌<◌, ◌≡◌, refl, ◌∙◌, ap, ◌≢◌, false}
use ckernel.Prelude.{arith, ltb}
use native.Mathlib.Decide.{dec_lt, ℕ_discrete}
use ckernel.Word.{u64}
use ckernel.Common.{align32}
use ckernel.Mem.{Memory, load32, load64}
use ckernel.Multiboot2.{
  BootInfo, Resource, resource, tag_type, tag_size, entries_loop, get_memory_tag, iter_loop,
}
use ckernel.Multiboot2.{read_size, multiboot2_iter, get_memory}

-- The `n` bytes at `b` are those that `m` holds at `a`.
abbrev pub AreSame : Memory → ℕ → Memory → ℕ → ℕ → Type 0
AreSame m a m' b n = (i : ℕ) → i < n → m' (b + i) ≡ m (a + i)

-- The tags from offset `o` on lie in the `n` bytes at `a`, up to an end tag, each with room for its
-- header, and those of a memory map with room for the header of the map.
pub data IsBlock (m : Memory) (a n : ℕ) : ℕ → Type 0 where
  ends : {o : ℕ} → o + 8 ≤ n → tag_type m (a + o) ≡ 0 → IsBlock m a n o
  goes_on :
      {o : ℕ}
      → tag_type m (a + o) ≢ 0
      → 8 ≤ tag_size m (a + o)
      → (tag_type m (a + o) ≡ 6 → 16 ≤ tag_size m (a + o))
      → o + tag_size m (a + o) ≤ n
      → IsBlock m a n (o + align32 (tag_size m (a + o)) 8)
      → IsBlock m a n o

module _ (m : Memory) (a : ℕ) (m' : Memory) (b n : ℕ) (same : AreSame m a m' b n) where
  load32-same : (o : ℕ) → o + 4 ≤ n → load32 m' (b + o) ≡ load32 m (a + o)
  load32-same o fits = ground (
    arith,
    same o (omega arith),
    same (o + 1) (omega arith),
    same (o + 2) (omega arith),
    same (o + 3) (omega arith),
  )

  load64-same : (o : ℕ) → o + 8 ≤ n → load64 m' (b + o) ≡ load64 m (a + o)
  load64-same o fits =
      let low = load32-same o (omega arith) in
      let high = load32-same (o + 4) (omega arith) in ground (arith, low, high)

  -- The same, at a distance from an offset.
  load32-at : (o k : ℕ) → o + k + 4 ≤ n → load32 m' (b + o + k) ≡ load32 m (a + o + k)
  load32-at o k fits =
      let new : b + o + k ≡ b + (o + k) = omega arith in
      let old : a + (o + k) ≡ a + o + k = omega arith in
      ap (load32 m') new ∙ load32-same (o + k) fits ∙ ap (load32 m) old

  load64-at : (o k : ℕ) → o + k + 8 ≤ n → load64 m' (b + o + k) ≡ load64 m (a + o + k)
  load64-at o k fits =
      let new : b + o + k ≡ b + (o + k) = omega arith in
      let old : a + (o + k) ≡ a + o + k = omega arith in
      ap (load64 m') new ∙ load64-same (o + k) fits ∙ ap (load64 m) old

  entries-same :
      (left e entry_size o len : ℕ)
      → e ≤ n
      → entries_loop left m' (b + e) entry_size (b + o) len
        ≡ entries_loop left m (a + e) entry_size (a + o) len
  unfolding entries_loop
  entries-same zero e entry_size o len inside = refl
  entries-same (suc left) e entry_size o len inside = elim (dec_lt e (o + 24)) [
    | yes beyond ↦ ground (arith, beyond)
    | no within ↦
        (let size = load64-at o 8 (omega arith) in
          let type = load32-at o 16 (omega arith) in
          let new : b + o + entry_size ≡ b + (o + entry_size) = omega arith in
          let old : a + o + entry_size ≡ a + (o + entry_size) = omega arith in
          let on_new : ltb (b + e) (b + o + 24) ≡ false = ground arith in
          let on_old : ltb (a + e) (a + o + 24) ≡ false = ground arith in
          let rest = λ (l : ℕ). entries-same left e entry_size (o + entry_size) l inside in
          rw (on_new, on_old, size, type, new, old) (rest _))
  ]

  get_memory_tag-same :
      (o : ℕ) (r : Resource)
      → o + 8 ≤ n
      → (tag_type m (a + o) ≡ 6 → 16 ≤ tag_size m (a + o))
      → o + tag_size m (a + o) ≤ n
      → get_memory_tag m' (b + o) r ≡ get_memory_tag m (a + o) r
  unfolding get_memory_tag
  get_memory_tag-same o r header map_header fits =
      let type = load32-same o (omega arith) in
      let size = load32-at o 4 (omega arith) in
      elim (ℕ_discrete (tag_type m (a + o)) 6) [
        | no other ↦ ground (arith, type, other)
        | yes is_map ↦
            (let s = tag_size m (a + o) in
              let entry_size = load32-at o 8 (omega (arith, map_header is_map)) in
              let new_end : b + o + s ≡ b + (o + s) = omega arith in
              let old_end : a + o + s ≡ a + (o + s) = omega arith in
              let new : b + o + 16 ≡ b + (o + 16) = omega arith in
              let old : a + o + 16 ≡ a + (o + 16) = omega arith in
              let total =
                λ (k : ℕ). entries-same k (o + s) (load32 m (a + o + 8)) (o + 16) 0 fits in
              rw (type, size, entry_size, new_end, old_end, new, old, total _) refl)
      ]

  block-inside : (o : ℕ) → IsBlock m a n o → o + 8 ≤ n
  block-inside o (ends fits e) = fits
  block-inside o (goes_on ne size map_header fits rest) = omega arith

  iter_loop-same :
      (fuel o : ℕ) (r : Resource)
      → a + n < 2 ^ 64
      → b + n < 2 ^ 64
      → IsBlock m a n o
      → iter_loop m' (get_memory_tag m') fuel (b + o) r
        ≡ iter_loop m (get_memory_tag m) fuel (a + o) r
  unfolding iter_loop
  iter_loop-same zero o r a_small b_small block = refl
  iter_loop-same (suc fuel) o r a_small b_small (ends fits e) =
      let type = load32-same o (omega arith) in ground (arith, type, e)
  iter_loop-same (suc fuel) o r a_small b_small (goes_on ne header map_header fits rest) =
      let type = load32-same o (omega arith) in
      let size = load32-at o 4 (omega arith) in
      let step = align32 (tag_size m (a + o)) 8 in
      let inside = block-inside (o + step) rest in
      let new : u64 (b + o + step) ≡ b + (o + step) = omega (arith, inside, b_small) in
      let old : u64 (a + o + step) ≡ a + (o + step) = omega (arith, inside, a_small) in
      let call = get_memory_tag-same o r (omega arith) map_header fits in
      let later = λ (d : Resource). iter_loop-same fuel (o + step) d a_small b_small rest in
      rw (type, size, call, new, old, later _) refl

  -- The bytes of the header, before the tags.
  pub read_size-same : 4 ≤ n → read_size m' b ≡ read_size m a
  unfolding read_size
  read_size-same fits =
      let at0 = same 0 (omega arith) in
      let at1 = same 1 (omega arith) in
      let at2 = same 2 (omega arith) in
      let at3 = same 3 (omega arith) in rw (at0, at1, at2, at3) refl

-- If the `n` bytes at two addresses are the same, do not wrap, and the tags of the block lie in
-- them, then `get_memory` gives the same from both, whatever the fuel.
pub get_memory-same :
    (fuel : ℕ) (m m' : Memory) (old new : BootInfo) (n : ℕ)
    → AreSame m old.boot_info_addr m' new.boot_info_addr n
    → old.inited ≡ new.inited
    → old.boot_info_addr + n < 2 ^ 64
    → new.boot_info_addr + n < 2 ^ 64
    → IsBlock m old.boot_info_addr n 8
    → get_memory fuel m' new ≡ get_memory fuel m old
unfolding get_memory multiboot2_iter
get_memory-same fuel m m' old new n same ready old_small new_small block =
    rw
      (
        ready,
        iter_loop-same m old.boot_info_addr m' new.boot_info_addr n same fuel 8 resource old_small
            new_small block,
      )
      refl
