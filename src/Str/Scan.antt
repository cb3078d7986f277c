-- ===== src/Str/Scan.antt =====
-- The two loops of strnlen: byte by byte up to a word, and word by word.
use ckernel.Prelude.{
  ℕ, zero, suc, ◌+◌, ◌-◌, ◌%◌, ◌^◌, ◌≤◌, ◌<◌, ◌≡◌, ◌≢◌, refl, ◌∙◌, arith, none, some, Option, ◌⊎◌,
  inl, inr,
}
use ckernel.Prelude.{ltb, Bool-cases, ltb→lt, ltb→ge}
use ckernel.Word.{u64}
use ckernel.Word.Bits.{bit_and_mask}
use ckernel.Mem.{Memory, IsBytes}
use ckernel.Str.{distance, strnlen_head, zero_byte, strnlen_words}
use ckernel.Str.Magic.{magic-zero_byte}
use native.Mathlib.Decide.{ℕ_discrete}

-- There is no zero byte from `lo` up to `q` and `end_ptr`.
abbrev pub Before : Memory → ℕ → ℕ → ℕ → Type 0
Before m lo end_ptr q = (p : ℕ) → lo ≤ p → p < q → p < end_ptr → m p ≢ 0

-- `q` is the first zero byte, or lies behind the end.
abbrev pub Found : Memory → ℕ → ℕ → ℕ → Type 0
Found m lo end_ptr q = (lo ≤ q) × Before m lo end_ptr q × ((end_ptr ≤ q) ⊎ (m q ≡ 0))

zero_byte-none :
    (left : ℕ) (m : Memory) (cp p : ℕ)
    → zero_byte left m cp ≡ none
    → cp ≤ p
    → p < cp + left
    → m p ≢ 0
unfolding zero_byte
zero_byte-none zero m cp p e lo hi = absurd (omega arith)
zero_byte-none (suc left) m cp p e lo hi = grind (arith, zero_byte-none left m (cp + 1) p)

zero_byte-some :
    (left : ℕ) (m : Memory) (cp q : ℕ)
    → zero_byte left m cp ≡ some q
    → (cp ≤ q) × ((p : ℕ) → cp ≤ p → p < q → m p ≢ 0) × (m q ≡ 0)
unfolding zero_byte
zero_byte-some zero m cp q e = cc
zero_byte-some (suc left) m cp q e = elim (ℕ_discrete (m cp) 0) [
  | yes z ↦
      (let at : cp ≡ q = ground arith in
        (omega arith, λ p lo hi. absurd (omega arith), rw (← at) z))
  | no nz ↦
      (let (lo, before, z) = zero_byte-some left m (cp + 1) q (ground arith) in
        (
          omega arith,
          λ p from to. elim (ℕ_discrete p cp) [
            | yes at ↦ rw at nz
            | no ne ↦ before p (omega arith) to
          ],
          z,
        ))
]

-- What the first loop finds.
abbrev pub Headed : Memory → ℕ → ℕ → ℕ ⊎ ℕ → Type 0
Headed m str end_ptr (inl result) =
    (q : ℕ) × Found m str end_ptr q × (result ≡ distance str end_ptr q)
Headed m str end_ptr (inr q) = (str ≤ q) × Before m str end_ptr q

pub strnlen_head_lem :
    (left fuel : ℕ) (m : Memory) (str end_ptr cp : ℕ)
    → str ≤ cp
    → Before m str end_ptr cp
    → (cp + left) % 8 ≡ 0
    → left < fuel
    → (r : ℕ ⊎ ℕ) × (strnlen_head fuel m str end_ptr cp ≡ some r) × Headed m str end_ptr r
unfolding strnlen_head
strnlen_head_lem left zero m str end_ptr cp lo before aligned enough = absurd (omega arith)
strnlen_head_lem left (suc fuel) m str end_ptr cp lo before aligned enough =
    elim (ℕ_discrete (cp % 8) 0) [
      | yes z ↦ (inr cp, ground (arith, bit_and_mask 3 cp), (lo, before))
      | no nz ↦ elim (ℕ_discrete (m cp) 0) [
        | yes end ↦ (
          inl (distance str end_ptr cp),
          ground (arith, bit_and_mask 3 cp),
          (cp, (lo, before, inr end), refl),
        )
        | no more ↦
            (let (r, ran, found) =
                strnlen_head_lem (left - 1) fuel m str end_ptr (cp + 1) (omega arith)
                  (λ p from to inside. elim (ℕ_discrete p cp) [
                    | yes at ↦ rw at more
                    | no ne ↦ before p from (omega arith) inside
                  ])
                  (omega arith) (omega arith) in
              (r, ground (arith, bit_and_mask 3 cp, ran), found))
      ]
    ]

words_next :
    (fuel : ℕ) (m : Memory) (end_ptr lp cp : ℕ)
    → lp < end_ptr
    → end_ptr ≤ 2 ^ 64 - 8
    → zero_byte 8 m lp ≡ none
    → strnlen_words (suc fuel) m end_ptr lp cp ≡ strnlen_words fuel m end_ptr (lp + 8) end_ptr
unfolding strnlen_words
words_next fuel m end_ptr lp cp inside top e =
    let whole : u64 (lp + 8) ≡ lp + 8 = omega arith in ground (arith, e, whole)

words_found :
    (fuel : ℕ) (m : Memory) (end_ptr lp cp q : ℕ)
    → IsBytes m
    → lp < end_ptr
    → zero_byte 8 m lp ≡ some q
    → strnlen_words (suc fuel) m end_ptr lp cp ≡ some q
unfolding strnlen_words
words_found fuel m end_ptr lp cp q bytes inside e = ground (arith, e, magic-zero_byte m lp bytes)

-- One word: `next` is what the loop finds behind it.
words_step :
    (fuel : ℕ) (m : Memory) (str end_ptr lp cp : ℕ)
    → IsBytes m
    → end_ptr ≤ 2 ^ 64 - 8
    → str ≤ lp
    → Before m str end_ptr lp
    → lp < end_ptr
    → (o : Option ℕ) → zero_byte 8 m lp ≡ o
    → (Before m str end_ptr (lp + 8)
        → (q : ℕ) × (strnlen_words fuel m end_ptr (lp + 8) end_ptr ≡ some q)
          × Found m str end_ptr q)
    → (q : ℕ) × (strnlen_words (suc fuel) m end_ptr lp cp ≡ some q) × Found m str end_ptr q
words_step fuel m str end_ptr lp cp bytes top lo before inside none e next =
    let (q, ran, found) = next (λ p from to in_end. elim (Bool-cases (ltb p lp)) [
      | inl l ↦ before p from (ltb→lt p lp l) in_end
      | inr g ↦ zero_byte-none 8 m lp p e (ltb→ge p lp g) to
    ]) in
    (q, words_next fuel m end_ptr lp cp inside top e ∙ ran, found)
words_step fuel m str end_ptr lp cp bytes top lo before inside (some q) e next =
    let (from_lp, none_before, z) = zero_byte-some 8 m lp q e in
    (
      q,
      words_found fuel m end_ptr lp cp q bytes inside e,
      (
        omega arith,
        λ p from to in_end. elim (Bool-cases (ltb p lp)) [
          | inl l ↦ before p from (ltb→lt p lp l) in_end
          | inr g ↦ none_before p (ltb→ge p lp g) to
        ],
        inr z,
      ),
    )

pub strnlen_words_lem :
    (fuel : ℕ) (m : Memory) (str end_ptr lp cp : ℕ)
    → IsBytes m
    → end_ptr ≤ 2 ^ 64 - 8
    → str ≤ lp
    → str ≤ cp
    → Before m str end_ptr lp
    → (lp ≤ cp) ⊎ (end_ptr ≤ cp)
    → 0 < fuel
    → end_ptr < lp + fuel
    → (q : ℕ) × (strnlen_words fuel m end_ptr lp cp ≡ some q) × Found m str end_ptr q
unfolding strnlen_words
strnlen_words_lem zero m str end_ptr lp cp bytes top lo lo' before at more enough =
    absurd (omega arith)
strnlen_words_lem (suc fuel) m str end_ptr lp cp bytes top lo lo' before at more enough =
    elim (Bool-cases (ltb lp end_ptr)) [
      | inr b ↦
          (let out = ltb→ge lp end_ptr b in
            (
              cp,
              rw b refl,
              (lo', λ p from to inside. before p from (omega arith) inside, inl (omega arith)),
            ))
      | inl b ↦
          words_step fuel m str end_ptr lp cp bytes top lo before (ltb→lt lp end_ptr b)
            (zero_byte 8 m lp) refl
            (λ clear.
              (let inside = ltb→lt lp end_ptr b in
                strnlen_words_lem fuel m str end_ptr (lp + 8) end_ptr bytes top (omega arith)
                  (omega arith) clear (inr (omega arith)) (omega arith) (omega arith)))
    ]
