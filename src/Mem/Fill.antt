-- ===== src/Mem/Fill.antt =====
-- memset and bzero.
use ckernel.Prelude.{ℕ, zero, suc, ◌+◌, ◌≡◌, fun_ext, ap, arith}
use ckernel.Prelude.{if◌then◌else◌, leb, ltb, ◌&&◌}
use ckernel.Word.{u8}
use ckernel.Mem.{Memory, store, memset_loop, memset, bzero}

-- The memory in which `dest` to `dest + len` holds the byte `b`.
abbrev pub filled : Memory → ℕ → ℕ → ℕ → Memory
filled m dest b len q = if leb dest q && ltb q (dest + len) then b else m q

memset_loop_lem :
    (len ptr val : ℕ) (m : Memory) (q : ℕ)
    → memset_loop len ptr val m q ≡ filled m ptr (u8 val) len q
unfolding memset_loop
memset_loop_lem zero ptr val m q = ground arith
memset_loop_lem (suc len) ptr val m q =
    ground (arith, memset_loop_lem len (ptr + 1) val (store m ptr (u8 val)) q)

-- `memset` stores the low byte of the value in the `len` bytes from `dest` on, changes no other byte
-- and returns `dest`; `bzero` stores zeros.
pub memset_lem :
    (m : Memory) (dest val len : ℕ)
    → (memset m dest val len ≡ (dest, filled m dest (u8 val) len))
      × (bzero m dest len ≡ filled m dest 0 len)
unfolding memset bzero
memset_lem m dest val len = (
  ap (λ t. (dest, t)) (fun_ext (memset_loop_lem len dest val m)),
  fun_ext (memset_loop_lem len dest 0 m),
)
