-- ===== src/Str/Bounded.antt =====
-- strnlen and strncpy: the search by words against a search byte by byte.
use ckernel.Prelude.{
  ℕ, ◌+◌, ◌-◌, ◌%◌, ◌^◌, ◌≤◌, ◌<◌, ◌≡◌, ◌≢◌, refl, fun_ext, ◌∙◌, ap, arith, some, ◌⊎◌, inl, inr,
}
use ckernel.Prelude.{false, ◌&&◌, ◌==◌, not, ltb, leb, if◌then◌else◌, Bool-cases, ltb→lt, ltb→ge}
use ckernel.Word.{u64, all_ones}
use ckernel.Mem.{Memory, IsBytes}
use ckernel.Mem.Fill.{filled, memset_lem}
use ckernel.Mem.Copy.{copied, memcpy_lem}
use ckernel.Str.{distance, strnlen_head, strnlen_tail, strnlen, strncpy}
use ckernel.Str.Scan.{Found, Headed, strnlen_head_lem, strnlen_words_lem}
use native.Mathlib.Decide.{ℕ_discrete}

-- `n` is the length of the string at `str`, or `maxlen` if there is no zero byte before.
pub record IsPrefix (m : Memory) (str maxlen n : ℕ) : Type 0 where
  pub nonzero : (i : ℕ) → i < n → m (str + i) ≢ 0
  pub bounded : n ≤ maxlen
  pub stop : (n ≡ maxlen) ⊎ (m (str + n) ≡ 0)

same_bound : {m : Memory} {str a b n : ℕ} → a ≡ b → IsPrefix m str a n → IsPrefix m str b n
same_bound e is = rw (← e) is

distance-IsPrefix :
    (m : Memory) (str end_ptr q : ℕ)
    → str ≤ end_ptr
    → Found m str end_ptr q
    → IsPrefix m str (end_ptr - str) (distance str end_ptr q)
distance-IsPrefix m str end_ptr q below (lo, before, stop) = elim (Bool-cases (ltb end_ptr q)) [
  | inl b ↦
      (let behind = ltb→lt end_ptr q b in
        let far : distance str end_ptr q ≡ end_ptr - str = ground arith in
        rw far record {
          nonzero = λ i h. before (str + i) (omega arith) (omega arith) (omega arith);
          bounded = omega arith;
          stop = inl refl;
        })
  | inr b ↦
      (let inside = ltb→ge end_ptr q b in
        let near : distance str end_ptr q ≡ q - str = ground arith in
        let at : str + (q - str) ≡ q = omega arith in
        rw near record {
          nonzero = λ i h. before (str + i) (omega arith) (omega arith) (omega arith);
          bounded = omega arith;
          stop = elim stop [ inl out ↦ inl (omega arith) | inr z ↦ inr (ap m at ∙ z) ];
        })
]

strnlen_tail_lem :
    (fuel : ℕ) (m : Memory) (str end_ptr : ℕ)
    → IsBytes m
    → str ≤ end_ptr
    → end_ptr ≤ 2 ^ 64 - 8
    → end_ptr < str + fuel
    → (r : ℕ ⊎ ℕ) → Headed m str end_ptr r
    → (n : ℕ) × (strnlen_tail fuel m str end_ptr r ≡ some n) × IsPrefix m str (end_ptr - str) n
strnlen_tail_lem fuel m str end_ptr bytes below top enough (inl n) (q, found, e) =
    (n, refl, rw e (distance-IsPrefix m str end_ptr q below found))
strnlen_tail_lem fuel m str end_ptr bytes below top enough (inr cp) (lo, before) =
    let (q, ran, found) =
      strnlen_words_lem fuel m str end_ptr cp cp bytes top lo lo before (inl (omega arith))
        (omega arith) (omega arith) in
    (distance str end_ptr q, rw ran refl, distance-IsPrefix m str end_ptr q below found)

strnlen-eq :
    (fuel : ℕ) (m : Memory) (str maxlen : ℕ) (r : ℕ ⊎ ℕ) (n : ℕ)
    → maxlen ≢ 0
    → str + maxlen ≤ 2 ^ 64 - 8
    → strnlen_head fuel m str (str + maxlen) str ≡ some r
    → strnlen_tail fuel m str (str + maxlen) r ≡ some n
    → strnlen fuel m str maxlen ≡ some n
unfolding strnlen
strnlen-eq fuel m str maxlen r n nz top ran ran' =
    let end : (if ltb (u64 (str + maxlen)) str then all_ones else u64 (str + maxlen))
        ≡ str + maxlen =
      ground arith in
    let test : (maxlen == 0) ≡ false = ground (arith, nz) in rw (test, end, ran) ran'

-- In a memory of bytes, for a block that ends at least 8 bytes below the top of the address space
-- and more rounds than its length and 8, `strnlen` ends and returns the index of the first zero
-- byte, or the bound if there is none before: the search by words finds what a search byte by byte
-- finds.
pub strnlen_lem :
    (fuel : ℕ) (m : Memory) (str maxlen : ℕ)
    → IsBytes m
    → str + maxlen ≤ 2 ^ 64 - 8
    → maxlen + 8 < fuel
    → (n : ℕ) × (strnlen fuel m str maxlen ≡ some n) × IsPrefix m str maxlen n
strnlen_lem fuel m str maxlen bytes top enough = elim (ℕ_discrete maxlen 0) [
  | yes z ↦ (
    0,
    unfold strnlen in ground (arith, z),
    record {
      nonzero = λ i h. absurd (omega arith);
      bounded = omega arith;
      stop = inl (omega arith);
    },
  )
  | no nz ↦
      (let (r, ran, headed) =
          strnlen_head_lem ((8 - str % 8) % 8) fuel m str (str + maxlen) str (omega arith)
            (λ p from to in_end. absurd (omega arith)) (omega arith) (omega arith) in
        let (n, ran', is) =
          strnlen_tail_lem fuel m str (str + maxlen) bytes (omega arith) top (omega arith) r
            headed in
        let length : str + maxlen - str ≡ maxlen = omega arith in
        (n, strnlen-eq fuel m str maxlen r n nz top ran ran', same_bound length is))
]

-- The memory behind `strncpy`: the text, then zeros up to `n`.
abbrev pub padded : Memory → ℕ → ℕ → ℕ → ℕ → Memory
padded m s1 s2 size n q =
    if leb s1 q && ltb q (s1 + size)
    then m (s2 + (q - s1))
    else if leb (s1 + size) q && ltb q (s1 + n)
    then 0
    else m q

strncpy-padded :
    (fuel : ℕ) (m : Memory) (s1 s2 n size : ℕ)
    → (s1 + n ≤ s2) ⊎ (s2 + n ≤ s1)
    → size ≤ n
    → strnlen fuel m s2 n ≡ some size
    → strncpy fuel m s1 s2 n ≡ some (s1, padded m s1 s2 size n)
unfolding strncpy
strncpy-padded fuel m s1 s2 n size apart below ran =
    let m' : Memory = if not (size == n) then filled m (s1 + size) 0 (n - size) else m in
    let set = (memset_lem m (s1 + size) 0 (n - size)).0 in
    let copy =
      memcpy_lem m' s1 s2 size
        (elim apart [ inl l ↦ inl (omega arith) | inr r ↦ inr (omega arith) ]) in
    let same : copied m' s1 s2 size ≡ padded m s1 s2 size n =
      fun_ext (λ q. ground (arith, apart)) in
    rw (ran, set, copy) (ap (λ m''. some (s1, m'')) same)

-- Under the conditions of `strnlen`, for blocks that do not overlap, `strncpy` copies the string at `s2`, at
-- most `n` bytes of it, fills the rest of the `n` bytes at `s1` with zeros, changes no other byte and
-- returns `s1`. A string of `n` bytes or more leaves no terminator.
pub strncpy_lem :
    (fuel : ℕ) (m : Memory) (s1 s2 n : ℕ)
    → IsBytes m
    → s2 + n ≤ 2 ^ 64 - 8
    → n + 8 < fuel
    → (s1 + n ≤ s2) ⊎ (s2 + n ≤ s1)
    → (size : ℕ) × IsPrefix m s2 n size
      × (strncpy fuel m s1 s2 n ≡ some (s1, padded m s1 s2 size n))
unfolding strncpy
strncpy_lem fuel m s1 s2 n bytes top enough apart =
    let (size, ran, is) = strnlen_lem fuel m s2 n bytes top enough in
    (size, is, strncpy-padded fuel m s1 s2 n size apart is.bounded ran)
