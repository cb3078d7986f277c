-- ===== src/Mem/Copy.antt =====
-- memcpy and memmove against a simultaneous copy of the block.
use ckernel.Prelude.{ℕ, zero, suc, ◌+◌, ◌-◌, ◌≤◌, ◌≡◌, ◌⊎◌, inl, inr, fun_ext, ap, arith}
use ckernel.Prelude.{if◌then◌else◌, leb, ltb, ◌&&◌, Bool-cases, ltb→lt, ltb→ge}
use ckernel.Mem.{Memory, store, copy_up, copy_down, memcpy, memmove}

-- The memory in which `dest` to `dest + len` holds what `src` to `src + len` held before.
abbrev pub copied : Memory → ℕ → ℕ → ℕ → Memory
copied m dest src len q = if leb dest q && ltb q (dest + len) then m (src + (q - dest)) else m q

pub copy_up_lem :
    (len d s : ℕ) (m : Memory) (q : ℕ)
    → (d ≤ s) ⊎ (s + len ≤ d)
    → copy_up len d s m q ≡ copied m d s len q
unfolding copy_up
copy_up_lem zero d s m q apart = ground arith
copy_up_lem (suc len) d s m q apart =
    ground (arith, copy_up_lem len (d + 1) (s + 1) (store m d (m s)) q)

copy_down_lem :
    (len d s : ℕ) (m : Memory) (q : ℕ) → s ≤ d → copy_down len d s m q ≡ copied m d s len q
unfolding copy_down
copy_down_lem zero d s m q h = ground arith
copy_down_lem (suc k) d s m q h =
    ground (arith, copy_down_lem k d s (store m (d + k) (m (s + k))) q h)

-- If the destination does not start inside the source behind its first byte, `memcpy` copies the
-- block as it was, changes no other byte and returns the destination.
pub memcpy_lem :
    (m : Memory) (dest src len : ℕ)
    → (dest ≤ src) ⊎ (src + len ≤ dest)
    → memcpy m dest src len ≡ (dest, copied m dest src len)
unfolding memcpy
memcpy_lem m dest src len apart =
    ap (λ t. (dest, t)) (fun_ext λ q. copy_up_lem len dest src m q apart)

-- `memmove` copies the block as it was, changes no other byte and returns the destination, however
-- the two blocks overlap.
pub memmove_lem :
    (m : Memory) (dest src len : ℕ) → memmove m dest src len ≡ (dest, copied m dest src len)
unfolding memmove
memmove_lem m dest src len = elim (Bool-cases (ltb dest src)) [
  | inl below ↦ rw below (
      ap (λ t. (dest, t))
        (fun_ext λ q. copy_up_lem len dest src m q (inl (omega (arith, ltb→lt dest src below)))))
  | inr above ↦
      rw above
        (ap (λ t. (dest, t)) (fun_ext λ q. copy_down_lem len dest src m q (ltb→ge dest src above)))
]
