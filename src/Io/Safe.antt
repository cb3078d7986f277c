-- ===== src/Io/Safe.antt =====
-- The buffer at every point of a message of src/libk/src/io.cpp: what it reads and what it leaves.
use ckernel.Prelude.{ℕ, zero, suc, ◌+◌, ◌-◌, ◌*◌, ◌≤◌, ◌<◌, ◌≡◌, refl, ◌∙◌, ap, ◌⊎◌, List}
use ckernel.Prelude.{arith, fun_ext, ◌==◌, ==_iff, true, false, ◌≢◌}
use ckernel.Prelude.Int.{ℤ}
use ckernel.Mem.{Memory}
use ckernel.Mem.Fill.{filled, memset_lem}
use ckernel.Io.{Io, Formatter, buf_size}
use ckernel.Io.Print.{IsBounded}
use ckernel.Io.Steps.{
  Point, start, saved, coloured, counting, writing, written, cleared, returned, step,
}
use Prim.{Unit, tt}
use native.Mathlib.Decide.{ℕ_discrete}

-- How many steps a message still has, at most.
unfoldable pub rank : Point → ℕ
rank start = 2 * buf_size + 5
rank (saved curr) = 2 * buf_size + 4
rank (coloured curr) = 2 * buf_size + 3
rank (counting curr i len) = 2 * buf_size + 2 - len
rank (writing curr i left s) = left + 3
rank (written curr i) = 2
rank (cleared curr i) = 1
rank (returned i) = 0

module _ (buf : ℕ) where
  -- The bytes that a message reads at a point are bytes of the buffer: there is a terminator in front of
  -- `strlen`, and an end of the text in front of the write. Behind the last step but one the buffer is
  -- full of zeros.
  pub IsPlaced : Memory → Point → Type 0
  IsPlaced m (counting curr i len) = (n : ℕ) × (len ≤ n) × (n < buf_size) × (m (buf + n) ≡ 0)
  IsPlaced m (writing curr i left s) = (buf ≤ s) × (s + left < buf + buf_size)
  IsPlaced m (cleared curr i) = (q : ℕ) → buf ≤ q → q < buf + buf_size → m q ≡ 0
  IsPlaced m (returned i) = (q : ℕ) → buf ≤ q → q < buf + buf_size → m q ≡ 0
  IsPlaced m p = Unit {0}

  -- A message on the memory `m0` is at `p`, and the memory is now `m`.
  pub record IsSafe (m0 m : Memory) (p : Point) : Type 0 where
    pub outside : (q : ℕ) → (q < buf) ⊎ (buf + buf_size ≤ q) → m q ≡ m0 q
    pub placed : IsPlaced m p

  filled-IsPlaced : (m : Memory) (p : Point) → IsPlaced m p → IsPlaced (filled m buf 0 buf_size) p
  unfolding IsPlaced
  filled-IsPlaced m start h = tt
  filled-IsPlaced m (saved curr) h = tt
  filled-IsPlaced m (coloured curr) h = tt
  filled-IsPlaced m (counting curr i len) (n, le, lt, z) = (n, le, lt, ground arith)
  filled-IsPlaced m (writing curr i left s) h = h
  filled-IsPlaced m (written curr i) h = tt
  filled-IsPlaced m (cleared curr i) h = λ q a b. ground arith
  filled-IsPlaced m (returned i) h = λ q a b. ground arith

  pub filled-IsSafe :
      (m0 m : Memory) (p : Point) → IsSafe m0 m p → IsSafe m0 (filled m buf 0 buf_size) p
  filled-IsSafe m0 m p h = record {
    outside = λ q out. ground (arith, h.outside q out);
    placed = filled-IsPlaced m p h.placed;
  }

  module _ (vsnprintf : Formatter) (color fmt : ℕ) (va : List ℕ)
      (bounded : IsBounded vsnprintf) where
    -- A step keeps to the buffer and comes nearer to the end.
    pub step-IsSafe :
        (m0 : Memory) (p : Point) (io : Io)
        → IsSafe m0 io.mem p
        → IsSafe m0
            (step vsnprintf buf color fmt va p io).1.mem
            (step vsnprintf buf color fmt va p io).0
          × (rank (step vsnprintf buf color fmt va p io).0 ≤ rank p - 1)
    unfolding step rank IsPlaced
    step-IsSafe m0 start io h = (record { outside = h.outside; placed = tt }, omega arith)
    step-IsSafe m0 (saved curr) io h = (record { outside = h.outside; placed = tt }, omega arith)
    step-IsSafe m0 (coloured curr) io h =
        let (n, short, text) = bounded.terminated buf buf_size fmt va io.mem (omega arith) in
        (
          record {
            outside = λ q out. bounded.outside buf buf_size fmt va io.mem q out ∙ h.outside q out;
            placed = (n, omega arith, short, text.terminated);
          },
          omega arith,
        )
    step-IsSafe m0 (counting curr i len) io h =
        let (n, le, lt, z) = h.placed in
        elim (ℕ_discrete (io.mem (buf + len)) 0) [
          | yes stop ↦
              (let test : (io.mem (buf + len) == 0) ≡ true = (==_iff _ 0).1 stop in
                rw test (
                  record { outside = h.outside; placed = (omega arith, omega arith) },
                  omega arith,
                ))
          | no more ↦
              (let test : (io.mem (buf + len) == 0) ≡ false = ground (arith, more) in
                let apart : len ≢ n = λ e. more (ap (λ k. io.mem (buf + k)) e ∙ z) in
                rw test (
                  record { outside = h.outside; placed = (n, omega (arith, apart), lt, z) },
                  omega (arith, apart),
                ))
        ]
    step-IsSafe m0 (writing curr i zero s) io h =
        (record { outside = h.outside; placed = tt }, omega arith)
    step-IsSafe m0 (writing curr i (suc left) s) io h = (
      record {
        outside = h.outside;
        placed = (omega (arith, h.placed.0), omega (arith, h.placed.1));
      },
      omega arith,
    )
    step-IsSafe m0 (written curr i) io h =
        let zeros = (memset_lem io.mem buf 0 buf_size).1 in
        rw zeros (
          record {
            outside = λ q out. ground (arith, h.outside q out);
            placed = λ q a b. ground arith;
          },
          omega arith,
        )
    step-IsSafe m0 (cleared curr i) io h =
        (record { outside = h.outside; placed = h.placed }, omega arith)
    step-IsSafe m0 (returned i) io h = (h, omega arith)

  -- A message that has no step left has returned, and the buffer is full of zeros.
  pub ended :
      (m0 m : Memory) (p : Point)
      → IsSafe m0 m p
      → rank p ≡ 0
      → (i : ℤ) × (p ≡ returned i) × (m ≡ filled m0 buf 0 buf_size)
  unfolding rank IsPlaced
  ended m0 m (returned i) h e = (i, refl, fun_ext (λ q. ground (arith, h.outside q, h.placed q)))
  ended m0 m start h e = absurd (omega arith)
  ended m0 m (saved curr) h e = absurd (omega arith)
  ended m0 m (coloured curr) h e = absurd (omega arith)
  ended m0 m (counting curr i len) h e = let (n, le, lt, z) = h.placed in absurd (omega arith)
  ended m0 m (writing curr i left s) h e = absurd (omega arith)
  ended m0 m (written curr i) h e = absurd (omega arith)
  ended m0 m (cleared curr i) h e = absurd (omega arith)

  pub begun-IsSafe : (m : Memory) → IsSafe m m start
  unfolding IsPlaced
  begun-IsSafe m = record { outside = λ q out. refl; placed = tt }
