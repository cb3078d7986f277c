-- ===== src/Io/Steps.antt =====
-- info, warn and err of src/libk/src/io.cpp step by step, with the loops of strlen (string.c) and of
-- TUI::write (tui.cpp) that they run into: the points between which an interrupt can come.
use ckernel.Prelude.{
  ◌-◌, ℕ, zero, suc, ◌+◌, ◌*◌, ◌≤◌, ◌≡◌, refl, ◌∙◌, ap, ap₂, sym, List, some, arith,
}
use mathlib.Core.Path.{subst}
use ckernel.Prelude.{false, if◌then◌else◌, ◌==◌, ==_iff}
use ckernel.Prelude.Int.{ℤ}
use ckernel.Mem.{bzero}
use ckernel.Str.Length.{IsString}
use ckernel.Tui.{make_col, black, write_bytes}
use ckernel.Io.{Io, Formatter, buf_size, get_color, set_color, put_char, print_in}
use ckernel.Io.Print.{IsBounded, bzero-formatted, print_in_lem}

-- Where a message stands, with its local variables: `curr_color`, what `_vsnprintf` returned, the length that
-- `strlen` has counted, and the bytes that are left to write from an address on.
pub data Point : Type 0 where
  start : Point
  saved : (curr_color : ℕ) → Point
  coloured : (curr_color : ℕ) → Point
  counting : (curr_color : ℕ) → (i : ℤ) → (len : ℕ) → Point
  writing : (curr_color : ℕ) → (i : ℤ) → (left s : ℕ) → Point
  written : (curr_color : ℕ) → (i : ℤ) → Point
  cleared : (curr_color : ℕ) → (i : ℤ) → Point
  returned : (i : ℤ) → Point

module _ (vsnprintf : Formatter) (buf color fmt : ℕ) (va : List ℕ) where
  unfoldable pub step : Point → Io → Point × Io
  step start io = (saved (get_color io), io)
  step (saved curr_color) io = (coloured curr_color, set_color color io)
  step (coloured curr_color) io =
      let (i, formatted) = vsnprintf buf buf_size fmt va io.mem in
      (counting curr_color i 0, record io { mem = formatted })
  step (counting curr_color i len) io =
      if io.mem (buf + len) == 0
      then (writing curr_color i len buf, io)
      else (counting curr_color i (len + 1), io)
  step (writing curr_color i zero s) io = (written curr_color i, io)
  step (writing curr_color i (suc left) s) io =
      (writing curr_color i left (s + 1), put_char (io.mem s) io)
  step (written curr_color i) io =
      (cleared curr_color i, record io { mem = bzero io.mem buf buf_size })
  step (cleared curr_color i) io = (returned i, set_color curr_color io)
  step (returned i) io = (returned i, io)

  unfoldable pub steps : ℕ → Point → Io → Point × Io
  steps zero p io = (p, io)
  steps (suc k) p io = let (p', io') = step p io in steps k p' io'

  pub steps-add :
      (k l : ℕ) (p : Point) (io : Io)
      → steps (k + l) p io ≡ steps l (steps k p io).0 (steps k p io).1
  unfolding steps
  steps-add zero l p io = let same : 0 + l ≡ l = omega arith in ap (λ j. steps j p io) same
  steps-add (suc k) l p io =
      let swap : suc k + l ≡ suc (k + l) = omega arith in
      ap (λ j. steps j p io) swap ∙ steps-add k l (step p io).0 (step p io).1

  -- A message that has returned stays as it is.
  steps-returned : (k : ℕ) (i : ℤ) (io : Io) → steps k (returned i) io ≡ (returned i, io)
  unfolding steps step
  steps-returned zero i io = refl
  steps-returned (suc k) i io = steps-returned k i io

  pub steps-more :
      (k n : ℕ) (p : Point) (i : ℤ) (io io' : Io)
      → steps k p io ≡ (returned i, io')
      → k ≤ n
      → steps n p io ≡ (returned i, io')
  steps-more k n p i io io' ran le =
      let split : n ≡ k + (n - k) = omega arith in
      ap (λ j. steps j p io) split
      ∙ steps-add k (n - k) p io
      ∙ ap (λ r. steps (n - k) r.0 r.1) ran
      ∙ steps-returned (n - k) i io'

  steps-counting :
      (left curr : ℕ) (i : ℤ) (len : ℕ) (io : Io)
      → IsString io.mem buf (len + left)
      → steps (suc left) (counting curr i len) io ≡ (writing curr i (len + left) buf, io)
  unfolding steps step
  steps-counting zero curr i len io s =
      let at : len + 0 ≡ len = omega arith in
      let stop : io.mem (buf + len) ≡ 0 = ap (λ n. io.mem (buf + n)) (sym at) ∙ s.terminated in
      rw ((==_iff _ 0).1 stop, at) refl
  steps-counting (suc left) curr i len io s =
      let more : (io.mem (buf + len) == 0) ≡ false = ground (arith, s.nonzero len (omega arith)) in
      let at : len + suc left ≡ len + 1 + left = omega arith in
      let rest =
        steps-counting left curr i (len + 1) io (subst (λ n. IsString io.mem buf n) at s) in
      rw (more, at) rest

  pub steps-writing :
      (left curr : ℕ) (i : ℤ) (s : ℕ) (io : Io)
      → steps (suc left) (writing curr i left s) io
        ≡ (written curr i, record io { screen = write_bytes left io.mem s io.screen })
  unfolding steps step write_bytes
  steps-writing zero curr i s io = refl
  steps-writing (suc left) curr i s io = steps-writing left curr i (s + 1) (put_char (io.mem s) io)

  -- For a formatter that keeps to its bound, and with at least as many rounds for the output as the
  -- buffer has bytes, a message that nothing interrupts is at its end after at most 1029 steps, with
  -- the result, the memory and the screen that `print_in` gives.
  pub steps-print_in :
      (fuel : ℕ) (io : Io)
      → IsBounded vsnprintf
      → buf_size ≤ fuel
      → (k : ℕ) × (i : ℤ) × (io' : Io) × (k ≤ 2 * buf_size + 5)
        × (steps k start io ≡ (returned i, io'))
        × (print_in vsnprintf buf color fuel fmt va io ≡ some (i, io'))
  unfolding steps step
  steps-print_in fuel io bounded enough =
      let i = (vsnprintf buf buf_size fmt va io.mem).0 in
      let formatted = (vsnprintf buf buf_size fmt va io.mem).1 in
      let (screen, ran, text) = print_in_lem vsnprintf buf bounded color fuel fmt va io enough in
      let n = text.n in
      let curr = get_color io in
      let io1 : Io = record (set_color color io) { mem = formatted } in
      let io2 : Io = record io1 { screen = write_bytes n formatted buf io1.screen } in
      let counted : IsString formatted buf (0 + n) =
        subst (λ k. IsString formatted buf k) (omega arith) text.text in
      let at : 0 + n ≡ n = omega arith in
      (
        suc (suc (suc (suc n + (suc n + 2)))),
        i,
        set_color curr (record io2 { mem = bzero formatted buf buf_size }),
        omega (arith, text.short),
        steps-add (suc n) (suc n + 2) (counting curr i 0) io1
            ∙ ap (λ r. steps (suc n + 2) r.0 r.1) (steps-counting n curr i 0 io1 counted)
            ∙ ap (λ k. steps (suc n + 2) (writing curr i k buf) io1) at
            ∙ steps-add (suc n) 2 (writing curr i n buf) io1
            ∙ ap (λ r. steps 2 r.0 r.1) (steps-writing n curr i buf io1),
        ran
            ∙ ap₂
                (λ m t.
                  some (i, record { mem = m; screen = record t { color = make_col curr black } }))
                (sym (bzero-formatted vsnprintf buf fmt va io.mem bounded)) text.screen,
      )
