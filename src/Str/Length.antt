-- ===== src/Str/Length.antt =====
-- strlen, backspace and append on a string of known length.
use ckernel.Prelude.{ℕ, zero, suc, ◌+◌, ◌-◌, ◌≤◌, ◌<◌, ◌^◌, ◌≡◌, ◌≢◌, ◌↔◌, some, arith}
use ckernel.Prelude.{==_iff}
use ckernel.Mem.{Memory, store}
use ckernel.Word.{u64, sub64}
use ckernel.Str.{strlen_loop, strlen, backspace, append}
use native.Mathlib.Decide.{ℕ_discrete}

-- The string at `str` has `n` bytes before its terminator.
pub record IsString (m : Memory) (str n : ℕ) : Type 0 where
  pub nonzero : (i : ℕ) → i < n → m (str + i) ≢ 0
  pub terminated : m (str + n) ≡ 0

strlen_loop_lem :
    (fuel : ℕ) (m : Memory) (str n len : ℕ)
    → IsString m str n
    → len ≤ n
    → n < len + fuel
    → strlen_loop fuel m str len ≡ some n
unfolding strlen_loop
strlen_loop_lem zero m str n len s below enough = absurd (omega arith)
strlen_loop_lem (suc fuel) m str n len s below enough = elim (ℕ_discrete len n) [
  | yes e ↦ rw e (rw ((==_iff _ 0).1 s.terminated))
  | no ne ↦ ground (arith, s.nonzero len, strlen_loop_lem fuel m str n (len + 1) s)
]

strlen_loop_inv :
    (fuel : ℕ) (m : Memory) (str n len : ℕ)
    → ((i : ℕ) → i < len → m (str + i) ≢ 0)
    → strlen_loop fuel m str len ≡ some n
    → IsString m str n × (n < len + fuel)
unfolding strlen_loop
strlen_loop_inv zero m str n len before e = cc
strlen_loop_inv (suc fuel) m str n len before e = elim (ℕ_discrete (m (str + len)) 0) [
  | yes z ↦
      (let at : len ≡ n = ground arith in
        rw (← at) (record { nonzero = before; terminated = z }, omega arith))
  | no nz ↦
      (let (s, enough) =
          strlen_loop_inv fuel m str n (len + 1)
            (λ i h. elim (ℕ_discrete i len) [ yes at ↦ rw at nz | no ne ↦ before i (omega arith) ])
            (ground arith) in
        (s, omega arith))
]

-- `strlen` returns `n` exactly if the string at `str` has `n` bytes before its first zero byte and
-- the loop has more than `n` rounds.
pub strlen_iff :
    (fuel : ℕ) (m : Memory) (str n : ℕ)
    → (strlen fuel m str ≡ some n) ↔ (IsString m str n × (n < fuel))
unfolding strlen
strlen_iff fuel m str n = (
  λ e.
      (let (s, enough) = strlen_loop_inv fuel m str n 0 (λ i h. absurd (omega arith)) e in
        (s, omega arith)),
  λ h. strlen_loop_lem fuel m str n 0 h.0 (omega arith) (omega (arith, h.1)),
)

-- `append` stores the byte in place of the terminator and a new one behind it: the string grows by
-- that byte, and no other byte changes.
pub append_lem :
    (fuel : ℕ) (m : Memory) (src n c : ℕ)
    → IsString m src n
    → n < fuel
    → c ≢ 0
    → (m' : Memory) × (append fuel m src c ≡ some m')
      × IsString m' src (n + 1)
      × (m' (src + n) ≡ c)
      × ((a : ℕ) → a ≢ src + n → a ≢ src + (n + 1) → m' a ≡ m a)
unfolding append
append_lem fuel m src n c s enough nz = (
  store (store m (src + n) c) (src + (n + 1)) 0,
  rw ((strlen_iff fuel m src n).1 (s, enough)),
  record {
    nonzero = λ i h. elim (ℕ_discrete i n) [
      | yes e ↦ rw e (ground (arith, nz))
      | no ne ↦ ground (arith, s.nonzero i)
    ];
    terminated = ground arith;
  },
  ground arith,
  λ a p q. ground arith,
)

-- On a nonempty string `backspace` removes the last byte, and changes no other; on an empty one it
-- leaves the string and clears the byte before it.
pub backspace_lem :
    (fuel : ℕ) (m : Memory) (src n : ℕ)
    → IsString m src n
    → n < fuel
    → 0 < src
    → src + n < 2 ^ 64
    → (m' : Memory) × (backspace fuel m src ≡ some m')
      × IsString m' src (n - 1)
      × (m' (src + n - 1) ≡ 0)
      × ((a : ℕ) → a ≢ src + n - 1 → m' a ≡ m a)
unfolding backspace
backspace_lem fuel m src n s enough pos small =
    let last : u64 (src + sub64 n 1) ≡ src + n - 1 = omega arith in
    (
      store m (src + n - 1) 0,
      rw ((strlen_iff fuel m src n).1 (s, enough), last),
      record {
        nonzero = λ i h. ground (arith, s.nonzero i);
        terminated = ground (arith, s.terminated);
      },
      ground arith,
      λ a p. ground arith,
    )
