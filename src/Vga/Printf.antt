-- ===== src/Vga/Printf.antt =====
-- `vga_printf` of vgaprint.cpp against a description of its formats.
use ckernel.Prelude.{ℕ, zero, suc, ◌+◌, ◌^◌, ◌≤◌, ◌<◌, ◌≡◌, refl, sym, ◌≢◌, ◌∙◌, ap, ◌⊎◌, inl, inr}
use ckernel.Prelude.{List, [], ◌∷◌, ◌++◌, length, some, none, arith}
use ckernel.Word.{u8, u32, u64}
use ckernel.Mem.{Memory}
use ckernel.Vga.{
  Vga, signed_text, print, put_text, serial_text, pointer_digits, directive, long_directive,
  printf_step, vga_printf,
}
use ckernel.Vga.Digits.{decimal_lem, hex_lem, signed_lem, pointer_lem}
use ckernel.Vga.Text.{bytes_at, vga_puts_lem, serial_puts_lem, print-append}
use ckernel.Vga.Format.{
  Conversion, signed, unsigned, hex, pointer, char, string, long_signed, long_unsigned, long_hex,
  Piece, plain, conv, unknown, code, format, Holds, IsArg, IsText, IsUnknown, IsReady, Prints, done,
  put, put_arg, put_unknown,
}

-- One step at a conversion, up to what follows it.
abbrev Steps : ℕ → Memory → ℕ → Conversion → ℕ → List ℕ → Vga → Type 0
Steps fuel m fmt k a args v =
    (text : List ℕ) × IsText m k a text
    × (printf_step fuel m fmt (a ∷ args) v ≡ some (fmt + length (code k), args, print text v))

two : (m : Memory) (fmt : ℕ) {c : ℕ} → m (fmt + 1 + 1) ≡ c → m (fmt + 2) ≡ c
two m fmt e = let at : fmt + 2 ≡ fmt + 1 + 1 = omega arith in ap m at ∙ e

conv_step :
    (k : Conversion) (bound fuel : ℕ) (m : Memory) (fmt a : ℕ) (args rest : List ℕ) (v : Vga)
    → Holds m fmt (code k ++ rest)
    → IsArg bound m k a
    → bound ≤ fuel
    → Steps fuel m fmt k a args v
unfolding printf_step directive long_directive
conv_step signed bound fuel m fmt a args rest v (percent, (letter, _)) ok enough =
    let (text, ran, is) = signed_lem 32 (u32 a) (omega arith) (omega arith) (omega arith) ok in
    (text, is, ground (arith, percent, letter, ran))
conv_step unsigned bound fuel m fmt a args rest v (percent, (letter, _)) ok enough =
    let (text, ran, is) = decimal_lem (u32 a) (omega arith) in
    (text, is, ground (arith, percent, letter, ran))
conv_step hex bound fuel m fmt a args rest v (percent, (letter, _)) ok enough =
    let (text, ran, is) = hex_lem (u32 a) (omega arith) in
    (text, is, ground (arith, percent, letter, ran))
conv_step pointer bound fuel m fmt a args rest v (percent, (letter, _)) ok enough =
    let (eight, low) = pointer_lem (u64 a) in
    (
      b'0' ∷ b'x' ∷ pointer_digits 8 (u64 a) [],
      (pointer_digits 8 (u64 a) [], refl, eight, omega (arith, low)),
      ground (arith, percent, letter),
    )
conv_step char bound fuel m fmt a args rest v (percent, (letter, _)) ok enough =
    (u8 a ∷ [], refl, ground (arith, percent, letter))
conv_step string bound fuel m fmt a args rest v (percent, (letter, _)) (n, text, short) enough = (
  bytes_at m a n,
  (n, text, refl),
  ground (
    arith,
    percent,
    letter,
    vga_puts_lem n fuel m a v text (omega arith),
    serial_puts_lem n fuel m a (put_text (bytes_at m a n) v) text (omega arith),
  ),
)
conv_step long_signed bound fuel m fmt a args rest v (percent, (long, (letter, _))) ok enough =
    let (text, ran, is) = signed_lem 64 (u64 a) (omega arith) (omega arith) (omega arith) ok in
    (text, is, ground (arith, percent, long, two m fmt letter, ran))
conv_step long_unsigned bound fuel m fmt a args rest v (percent, (long, (letter, _))) ok enough =
    let (text, ran, is) = decimal_lem (u64 a) (omega arith) in
    (text, is, ground (arith, percent, long, two m fmt letter, ran))
conv_step long_hex bound fuel m fmt a args rest v (percent, (long, (letter, _))) ok enough =
    let (text, ran, is) = hex_lem (u64 a) (omega arith) in
    (text, is, ground (arith, percent, long, two m fmt letter, ran))

plain_step :
    (c fuel : ℕ) (m : Memory) (fmt : ℕ) (args : List ℕ) (v : Vga)
    → m fmt ≡ c
    → c ≢ b'%'
    → printf_step fuel m fmt args v ≡ some (fmt + 1, args, print (c ∷ []) v)
unfolding printf_step put_text serial_text
plain_step c fuel m fmt args v at other = ground (arith, at, other)

unknown_step :
    (c fuel : ℕ) (m : Memory) (fmt : ℕ) (args : List ℕ) (v : Vga)
    → m fmt ≡ b'%'
    → m (fmt + 1) ≡ c
    → IsUnknown c
    → printf_step fuel m fmt args v ≡ some (fmt + 2, args, print (b'%' ∷ c ∷ []) v)
unfolding printf_step directive
unknown_step c fuel m fmt args v percent at (z, d, u, x, p, l, ch, s) =
    ground (arith, percent, at, d, u, x, p, l, ch, s)

next_step :
    (fuel : ℕ) (m : Memory) (fmt fmt' : ℕ) (args args' : List ℕ) (v v' : Vga)
    → m fmt ≢ 0
    → printf_step fuel m fmt args v ≡ some (fmt', args', v')
    → vga_printf (suc fuel) m fmt args v ≡ vga_printf fuel m fmt' args' v'
unfolding vga_printf
next_step fuel m fmt fmt' args args' v v' inside e = ground (arith, inside, e)

Holds-append : (m : Memory) (s : ℕ) (a b : List ℕ) → Holds m s (a ++ b) → Holds m (s + length a) b
Holds-append m s [] b h = let at : s + 0 ≡ s = omega arith in rw at h
Holds-append m s (c ∷ a) b (_, h) =
    let at : s + suc (length a) ≡ s + 1 + length a = omega arith in
    rw at (Holds-append m (s + 1) a b h)

code-percent :
    (k : Conversion) (m : Memory) (s : ℕ) (rest : List ℕ) → Holds m s (code k ++ rest) → m s ≡ b'%'
code-percent signed m s rest h = h.0
code-percent unsigned m s rest h = h.0
code-percent hex m s rest h = h.0
code-percent pointer m s rest h = h.0
code-percent char m s rest h = h.0
code-percent string m s rest h = h.0
code-percent long_signed m s rest h = h.0
code-percent long_unsigned m s rest h = h.0
code-percent long_hex m s rest h = h.0

-- A format of plain characters, conversions and unknown letters behind `%`, with arguments that fit it
-- and more rounds than pieces and bytes of a string together, is printed completely: `vga_printf` ends
-- and prints the text that the format describes, on the screen and on the serial line.
pub vga_printf_lem :
    (ps : List Piece) (bound fuel : ℕ) (m : Memory) (fmt : ℕ) (args : List ℕ) (v : Vga)
    → Holds m fmt (format ps)
    → IsReady bound m ps args
    → bound + length ps < fuel
    → (text : List ℕ) × Prints m ps args text × (vga_printf fuel m fmt args v ≡ some (print text v))
vga_printf_lem ps bound zero m fmt args v text ready enough = absurd (omega arith)
vga_printf_lem [] bound (suc fuel) m fmt args v (end, _) ready enough =
    ([], done, unfold vga_printf put_text serial_text in ground (arith, end))
vga_printf_lem (plain c ∷ ps) bound (suc fuel) m fmt args v (at, rest) (nonzero, other, ready)
      enough =
    let (text, prints, ran) =
      vga_printf_lem ps bound fuel m (fmt + 1) args (print (c ∷ []) v) rest ready (omega arith) in
    (
      c ∷ text,
      put c prints,
      next_step fuel m fmt (fmt + 1) args args v (print (c ∷ []) v) (rw at nonzero)
            (plain_step c fuel m fmt args v at other)
          ∙ ran
          ∙ ap some (sym (print-append (c ∷ []) text v)),
    )
vga_printf_lem (conv k ∷ ps) bound (suc fuel) m fmt [] v holds ready enough =
    absurd (omega (arith, ready))
vga_printf_lem (conv k ∷ ps) bound (suc fuel) m fmt (a ∷ args) v holds (ok, ready) enough =
    let (text, is, step) =
      conv_step k bound fuel m fmt a args (format ps) v holds ok (omega arith) in
    let fmt' = fmt + length (code k) in
    let (text', prints, ran) =
      vga_printf_lem ps bound fuel m fmt' args (print text v)
        (Holds-append m fmt (code k) (format ps) holds) ready (omega arith) in
    let percent = code-percent k m fmt (format ps) holds in
    (
      text ++ text',
      put_arg k a text is prints,
      next_step fuel m fmt fmt' (a ∷ args) args v (print text v) (omega (arith, percent)) step
          ∙ ran
          ∙ ap some (sym (print-append text text' v)),
    )
vga_printf_lem (unknown c ∷ ps) bound (suc fuel) m fmt args v (percent, (at, rest)) (strange, ready)
      enough =
    let step = unknown_step c fuel m fmt args v percent at strange in
    let both = b'%' ∷ c ∷ [] in
    let (text, prints, ran) =
      vga_printf_lem ps bound fuel m (fmt + 2) args (print both v)
        (Holds-append m fmt both (format ps) (percent, (at, rest))) ready (omega arith) in
    (
      b'%' ∷ c ∷ text,
      put_unknown c prints,
      next_step fuel m fmt (fmt + 2) args args v (print both v) (omega (arith, percent)) step
          ∙ ran
          ∙ ap some (sym (print-append both text v)),
    )

-- A `%` at the end of a format, or `%l`, takes the terminator for a letter: `vga_printf` goes on behind the
-- end of the format.
pub vga_printf_overrun :
    (fuel : ℕ) (m : Memory) (fmt : ℕ) (args : List ℕ) (v : Vga)
    → m fmt ≡ b'%'
    → (m (fmt + 1) ≡ 0) ⊎ ((m (fmt + 1) ≡ b'l') × (m (fmt + 2) ≡ 0))
    → (vga_printf (suc fuel) m fmt args v
        ≡ vga_printf fuel m (fmt + 2) args (print (b'%' ∷ 0 ∷ []) v))
      ⊎ (vga_printf (suc fuel) m fmt args v ≡ vga_printf fuel m (fmt + 3) args v)
unfolding printf_step directive long_directive
vga_printf_overrun fuel m fmt args v percent (inl end) = inl (
    next_step fuel m fmt (fmt + 2) args args v (print (b'%' ∷ 0 ∷ []) v) (omega (arith, percent))
      (ground (arith, percent, end)))
vga_printf_overrun fuel m fmt args v percent (inr (long, end)) = inr (
    next_step fuel m fmt (fmt + 3) args args v v (omega (arith, percent))
      (ground (arith, percent, long, end)))

-- The least signed number of 32 bits has no text: negating it is undefined.
pub vga_printf_least :
    (fuel : ℕ) (m : Memory) (fmt a : ℕ) (args : List ℕ) (v : Vga)
    → m fmt ≡ b'%'
    → m (fmt + 1) ≡ b'd'
    → u32 a ≡ 2 ^ 31
    → vga_printf fuel m fmt (a ∷ args) v ≡ none
unfolding vga_printf printf_step directive signed_text
vga_printf_least zero m fmt a args v percent letter least = refl
vga_printf_least (suc fuel) m fmt a args v percent letter least =
    ground (arith, percent, letter, least)
