-- ===== src/Io/Mmio.antt =====
-- The memory-mapped registers of io.cpp.
use ckernel.Prelude.{ℕ, ◌+◌, ◌/◌, ◌%◌, ◌^◌, ◌≤◌, ◌<◌, ◌≡◌, ◌∙◌, ◌⊎◌, inl, inr, arith}
use ckernel.Word.{u32, u64}
use ckernel.Mem.{Memory}
use ckernel.Io.{write16, read32, write32, read64, write64}

-- The bytes outside the `n` at `a` are the same.
abbrev pub IsSameOutside : ℕ → ℕ → Memory → Memory → Type 0
IsSameOutside a n m m' = (q : ℕ) → (q < a) ⊎ (a + n ≤ q) → m' q ≡ m q

-- A register of 32 bits that was written reads back as the value cut to 32 bits.
pub read32-write32 :
    (a v : ℕ) (m : Memory)
    → (read32 (write32 a v m) a ≡ u32 v) × IsSameOutside a 4 m (write32 a v m)
unfolding write16 write32
read32-write32 a v m =
    let b0 : write32 a v m a ≡ v % 256 = ground arith in
    let b1 : write32 a v m (a + 1) ≡ v / 2 ^ 8 % 256 = ground arith in
    let b2 : write32 a v m (a + 2) ≡ v / 2 ^ 16 % 256 = ground arith in
    let b3 : write32 a v m (a + 3) ≡ v / 2 ^ 24 % 256 = ground arith in
    (omega (arith, b0, b1, b2, b3), λ q out. ground (arith, out))

read32-outside :
    (a b : ℕ) (m m' : Memory) → IsSameOutside b 4 m m' → a + 4 ≤ b → read32 m' a ≡ read32 m a
read32-outside a b m m' same below =
    let e0 = same a (inl (omega arith)) in
    let e1 = same (a + 1) (inl (omega arith)) in
    let e2 = same (a + 2) (inl (omega arith)) in
    let e3 = same (a + 3) (inl (omega arith)) in omega (arith, e0, e1, e2, e3)

-- A register of 64 bits that was written reads back as the value cut to 64 bits, and no other byte
-- changes. It is two registers of 32 bits, the low one first.
pub read64-write64 :
    (a v : ℕ) (m : Memory)
    → (read64 (write64 a v m) a ≡ u64 v)
      × (read32 (write64 a v m) a ≡ u32 v)
      × (read32 (write64 a v m) (a + 4) ≡ u32 (v / 2 ^ 32))
      × IsSameOutside a 8 m (write64 a v m)
unfolding write64
read64-write64 a v m =
    let (back, low) = read32-write32 a v m in
    let (upper, high) = read32-write32 (a + 4) (v / 2 ^ 32) (write32 a v m) in
    let kept = read32-outside a (a + 4) (write32 a v m) (write64 a v m) high (omega arith) in
    let lower = kept ∙ back in
    (
      omega (arith, lower, upper),
      lower,
      upper,
      λ q out. elim out [
        | inl below ↦ high q (inl (omega arith)) ∙ low q (inl below)
        | inr above ↦ high q (inr (omega arith)) ∙ low q (inr (omega arith))
      ],
    )
