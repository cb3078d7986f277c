-- ===== src/Vga/Digits.antt =====
-- The number formats of vgaprint.cpp.
use ckernel.Prelude.{
  ℕ, zero, suc, ◌+◌, ◌-◌, ◌*◌, ◌/◌, ◌%◌, ◌^◌, ◌≤◌, ◌<◌, ◌≡◌, refl, ◌⊎◌, ◌≢◌, sym, ◌∙◌, ap,
}
use ckernel.Prelude.{List, [], ◌∷◌, ◌++◌, length, length-append, some, arith, ltb}
use ckernel.Prelude.{if◌then◌else◌, bit_and, inl, inr}
use ckernel.Word.Bits.{bit_and_mask}
use ckernel.Vga.{digit, digits, hex_digits, pointer_digits, rounds, signed_text}
use mathlib.Core.List.{append_assoc, append-nil}
use native.Mathlib.Decide.{ℕ_discrete, dec_lt}
use native.Mathlib.Nat.{
  pow-zero, pow-suc, mul-le-mul_right, mul-le-mul_left, pow-le-pow_right, mod-lt, div-add-mod',
  mod-eq_of_lt, div-eq_of_lt, div-lt_iff_lt-mul,
}

-- The text is the number in the base, without leading zeros.
pub data IsNumeral (base : ℕ) : ℕ → List ℕ → Type 0 where
  one : {v : ℕ} → v < base → IsNumeral base v (digit v ∷ [])
  more :
      {n v : ℕ} {ds text : List ℕ} (d : ℕ)
      → IsNumeral base n ds
      → 0 < n
      → d < base
      → v ≡ n * base + d
      → text ≡ ds ++ digit d ∷ []
      → IsNumeral base v text

pub undigit : ℕ → ℕ
undigit c = if ltb c 58 then c - 48 else c - 87

-- Read a text as a number, after `acc`.
pub value : ℕ → ℕ → List ℕ → ℕ
value base acc [] = acc
value base acc (c ∷ cs) = value base (acc * base + undigit c) cs

undigit-digit : (d : ℕ) → d < 16 → undigit (digit d) ≡ d
unfolding undigit
undigit-digit d small = ground arith

value-append :
    (base acc : ℕ) (ds es : List ℕ) → value base acc (ds ++ es) ≡ value base (value base acc ds) es
unfolding value
value-append base acc [] es = refl
value-append base acc (c ∷ ds) es = value-append base (acc * base + undigit c) ds es

pub value-IsNumeral :
    {base v : ℕ} {ds : List ℕ} → base ≤ 16 → IsNumeral base v ds → value base 0 ds ≡ v
unfolding value
value-IsNumeral {base} {v} small (one h) = let e = undigit-digit v (omega arith) in omega (arith, e)
value-IsNumeral {base} small (more {n} {v} {ds} d rest pos below at text) =
    let e = undigit-digit d (omega arith) in
    rw (text, value-append base 0 ds (digit d ∷ []), value-IsNumeral small rest, e, at)

pub length-IsNumeral :
    {base v : ℕ} {ds : List ℕ} (k : ℕ) → IsNumeral base v ds → 0 < k → v < base ^ k → length ds ≤ k
length-IsNumeral k (one h) pos small = omega arith
length-IsNumeral {base} zero (more d rest p below at text) pos small = absurd (omega arith)
length-IsNumeral {base} (suc k) (more {n} {v} {ds} d rest p below at text) pos small =
    let grow : base ^ suc k ≡ base ^ k * base = pow-suc base k in
    let lower : n < base ^ k = elim (dec_lt n (base ^ k)) [
      | yes h ↦ h
      | no h ↦ absurd (omega (arith, mul-le-mul_right {m = base ^ k} {n = n} base (omega arith)))
    ] in
    let room : 0 < k = elim (dec_lt 0 k) [
      | yes h ↦ h
      | no h ↦
          let none : k ≡ 0 = omega arith in
          let unit : base ^ k ≡ 1 = rw none (pow-zero base) in absurd (omega arith)
    ] in
    rw (text, length-append ds (digit d ∷ [])) (omega (arith, length-IsNumeral k rest room lower))

next-IsNumeral :
    (base v : ℕ) (ds : List ℕ)
    → 2 ≤ base
    → 0 < v / base
    → IsNumeral base (v / base) ds
    → IsNumeral base v (ds ++ digit (v % base) ∷ [])
next-IsNumeral base v ds wide pos rest =
    more (v % base) rest pos (mod-lt v (omega arith)) (sym (div-add-mod' v base)) refl

only_digit : (base v : ℕ) → 2 ≤ base → v / base ≡ 0 → v < base
only_digit base v wide e =
    let h = (div-lt_iff_lt-mul {k = base} {x = v} {y = 1} (omega arith)).0 (omega arith) in
    omega arith

spare : (base fuel v : ℕ) → 2 ≤ base → v < 2 ^ suc fuel → v / base ≢ 0 → 0 < fuel
spare base zero v wide small left = absurd (left (div-eq_of_lt (omega arith)))
spare base (suc fuel) v wide small left = omega arith

module _ (base : ℕ) (wide : 2 ≤ base) where
  pub digits_lem :
      (fuel v : ℕ) (p : List ℕ)
      → v < 2 ^ fuel
      → 0 < fuel
      → (ds : List ℕ) × (digits fuel base v p ≡ some (ds ++ p)) × IsNumeral base v ds
  unfolding digits
  digits_lem zero v p small pos = absurd (omega arith)
  digits_lem (suc fuel) v p small pos = elim (ℕ_discrete (v / base) 0) [
    | yes last ↦
        let below = only_digit base v wide last in
        let whole : v % base ≡ v = mod-eq_of_lt below in
        (digit v ∷ [], ground (arith, last, whole), one below)
    | no more_left ↦
        let lower : v / base < 2 ^ fuel =
          (div-lt_iff_lt-mul {k = base} (omega arith)).1
            (omega (arith, pow-suc 2 fuel, mul-le-mul_left {m = 2} {n = base} (2 ^ fuel) wide)) in
        let (ds, ran, numeral) =
          digits_lem fuel (v / base) (digit (v % base) ∷ p) lower
            (spare base fuel v wide small more_left) in
        (
          ds ++ digit (v % base) ∷ [],
          ground (arith, more_left, ran, append_assoc ds (digit (v % base) ∷ []) p),
          next-IsNumeral base v ds wide (omega arith) numeral,
        )
  ]

hex_digits-eq-digits : (fuel v : ℕ) (p : List ℕ) → hex_digits fuel v p ≡ digits fuel 16 v p
unfolding hex_digits digits
hex_digits-eq-digits zero v p = refl
hex_digits-eq-digits (suc fuel) v p =
    rw (bit_and_mask 4 v, hex_digits-eq-digits fuel (v / 16) (digit (v % 16) ∷ p))

pub decimal_lem :
    (v : ℕ) → v < 2 ^ 64 → (ds : List ℕ) × (digits rounds 10 v [] ≡ some ds) × IsNumeral 10 v ds
decimal_lem v small =
    let (ds, ran, numeral) = digits_lem 10 (omega arith) 64 v [] small (omega arith) in
    (ds, rw append-nil at ran, numeral)

pub hex_lem :
    (v : ℕ) → v < 2 ^ 64 → (ds : List ℕ) × (hex_digits rounds v [] ≡ some ds) × IsNumeral 16 v ds
hex_lem v small =
    let (ds, ran, numeral) = digits_lem 16 (omega arith) 64 v [] small (omega arith) in
    (ds, hex_digits-eq-digits 64 v [] ∙ rw append-nil at ran, numeral)

-- The text of the number that `v` is as a signed number of `w` bits.
abbrev pub IsSigned : ℕ → ℕ → List ℕ → Type 0
IsSigned w v text =
    ((v < 2 ^ (w - 1)) × IsNumeral 10 v text)
    ⊎ ((2 ^ (w - 1) < v) × (ds : List ℕ) × (text ≡ b'-' ∷ ds) × IsNumeral 10 (2 ^ w - v) ds)

pub signed_lem :
    (w v : ℕ)
    → 0 < w
    → w ≤ 64
    → v < 2 ^ w
    → v ≢ 2 ^ (w - 1)
    → (text : List ℕ) × (signed_text w v ≡ some text) × IsSigned w v text
unfolding signed_text
signed_lem w v pos narrow small least =
    let fits : 2 ^ w ≤ 2 ^ 64 = pow-le-pow_right {n = 2} (omega arith) {i = w} {j = 64} narrow in
    let double : 2 ^ w ≡ 2 ^ (w - 1) * 2 =
      let step : w ≡ suc (w - 1) = omega arith in ap (λ (t : ℕ). 2 ^ t) step ∙ pow-suc 2 (w - 1) in
    elim (dec_lt v (2 ^ (w - 1))) [
      | yes plus ↦
          let (ds, ran, numeral) = decimal_lem v (omega arith) in
          (ds, ground (arith, plus, ran), inl (plus, numeral))
      | no minus ↦
          let (ds, ran, numeral) = decimal_lem (2 ^ w - v) (omega arith) in
          let above : 2 ^ (w - 1) < v = omega arith in
          (b'-' ∷ ds, ground (arith, above, double, ran), inr (above, ds, refl, numeral))
    ]

nibble : (x : ℕ) → undigit (digit (bit_and x 15)) ≡ x % 16
nibble x =
    let low = bit_and_mask 4 x in
    ap (λ (t : ℕ). undigit (digit t)) low ∙ undigit-digit (x % 16) (omega arith)

-- `%p` prints the low 32 bits as 8 digits.
pub pointer_lem :
    (v : ℕ)
    → (length (pointer_digits 8 v []) ≡ 8) × (value 16 0 (pointer_digits 8 v []) ≡ v % 2 ^ 32)
unfolding pointer_digits value
pointer_lem v =
    let v₁ = v / 16 in
    let v₂ = v₁ / 16 in
    let v₃ = v₂ / 16 in
    let v₄ = v₃ / 16 in
    let v₅ = v₄ / 16 in
    let v₆ = v₅ / 16 in
    let v₇ = v₆ / 16 in
    (
      refl,
      omega (
        arith,
        nibble v,
        nibble v₁,
        nibble v₂,
        nibble v₃,
        nibble v₄,
        nibble v₅,
        nibble v₆,
        nibble v₇,
      ),
    )

-- In base 10 and in base 16, the loops that build the digits of a number of 64 bits end. The text
-- is the number without leading zeros and reads back as the number; it has at most 20 and 16 digits, so
-- that it fits in the buffer of 32 bytes with a sign and the terminator.
pub numeral_lem :
    (v : ℕ)
    → v < 2 ^ 64
    → ((ds : List ℕ) × (digits rounds 10 v [] ≡ some ds)
        × IsNumeral 10 v ds
        × (value 10 0 ds ≡ v)
        × (length ds ≤ 20))
      × ((ds : List ℕ) × (hex_digits rounds v [] ≡ some ds)
          × IsNumeral 16 v ds
          × (value 16 0 ds ≡ v)
          × (length ds ≤ 16))
numeral_lem v small =
    let (ds, ran, dec) = decimal_lem v small in
    let (hs, ran', hex) = hex_lem v small in
    (
      (
        ds,
        ran,
        dec,
        value-IsNumeral (omega arith) dec,
        length-IsNumeral 20 dec (omega arith) (omega arith),
      ),
      (
        hs,
        ran',
        hex,
        value-IsNumeral (omega arith) hex,
        length-IsNumeral 16 hex (omega arith) (omega arith),
      ),
    )
