-- ===== src/Io/Print.antt =====
-- printf, info, warn and err of io.cpp, for a formatter that keeps to the bound it is given.
use ckernel.Prelude.{
  ℕ, ◌+◌, ◌≤◌, ◌<◌, ◌≡◌, refl, fun_ext, ◌∙◌, ◌⊎◌, List, Option, some, arith, bit_or,
}
use ckernel.Prelude.Int.{ℤ}
use ckernel.Mem.{Memory, bzero}
use ckernel.Mem.Fill.{filled, memset_lem}
use ckernel.Str.Length.{IsString}
use ckernel.Tui.{Tui, make_col, black, write_bytes}
use ckernel.Tui.Text.{write_string-write_bytes}
use ckernel.Io.{
  Io, Formatter, buf_size, cyan, light_red, yellow, print, printf, print_in, info, warn, err,
  set_color,
}

-- What the printf library documents of `_vsnprintf`: it writes at most `maxlen` bytes to the buffer, the
-- terminator among them, and nothing else.
pub record IsBounded (vsnprintf : Formatter) : Type 0 where
  pub outside :
      (buffer maxlen fmt : ℕ) (va : List ℕ) (m : Memory) (q : ℕ)
      → (q < buffer) ⊎ (buffer + maxlen ≤ q)
      → (vsnprintf buffer maxlen fmt va m).1 q ≡ m q
  pub terminated :
      (buffer maxlen fmt : ℕ) (va : List ℕ) (m : Memory)
      → 0 < maxlen
      → (n : ℕ) × (n < maxlen) × IsString (vsnprintf buffer maxlen fmt va m).1 buffer n

-- The text that the formatter left in the buffer is written to the screen.
pub record IsWritten (buf : ℕ) (formatted : Memory) (before after : Tui) : Type 0 where
  pub n : ℕ
  pub short : n < buf_size
  pub text : IsString formatted buf n
  pub screen : after ≡ write_bytes n formatted buf before

-- `result` is that of a call that printed in `color`; `written` is the screen with the text.
abbrev pub IsReport : Formatter → ℕ → ℕ → ℕ → List ℕ → Io → Option (ℤ × Io) → Type 0
IsReport vsnprintf buf color fmt va io result =
    (written : Tui) × (result
      ≡ some (
        (vsnprintf buf buf_size fmt va io.mem).0,
        record {
          mem = filled io.mem buf 0 buf_size;
          screen = record written {
            color = make_col (bit_or io.screen.color.back io.screen.color.fore) black;
          };
        },
      ))
    × IsWritten buf (vsnprintf buf buf_size fmt va io.mem).1
        (record (io.screen) { color = make_col color black }) written

-- The buffer full of zeros in a memory that a formatter has written to.
pub bzero-formatted :
    (vsnprintf : Formatter) (buf fmt : ℕ) (va : List ℕ) (m : Memory)
    → IsBounded vsnprintf
    → bzero (vsnprintf buf buf_size fmt va m).1 buf buf_size ≡ filled m buf 0 buf_size
bzero-formatted vsnprintf buf fmt va m bounded =
    let formatted = (vsnprintf buf buf_size fmt va m).1 in
    (memset_lem formatted buf 0 buf_size).1
    ∙ fun_ext (λ q. ground (arith, bounded.outside buf buf_size fmt va m q))

module _ (vsnprintf : Formatter) (buf : ℕ) (bounded : IsBounded vsnprintf) where
  -- With at least as many rounds as the buffer has bytes `printf` ends: it writes the formatted text to the
  -- screen, returns what `_vsnprintf` returns, leaves the buffer full of zeros and every other byte of the
  -- memory as it was.
  pub printf_lem :
      (fuel fmt : ℕ) (va : List ℕ) (io : Io)
      → buf_size ≤ fuel
      → (io' : Io) × (printf vsnprintf buf fuel fmt va io
          ≡ some ((vsnprintf buf buf_size fmt va io.mem).0, io'))
        × IsWritten buf (vsnprintf buf buf_size fmt va io.mem).1 io.screen io'.screen
        × (io'.mem ≡ filled io.mem buf 0 buf_size)
  unfolding print
  printf_lem fuel fmt va io enough =
      let formatted = (vsnprintf buf buf_size fmt va io.mem).1 in
      let (n, short, text) = bounded.terminated buf buf_size fmt va io.mem (omega arith) in
      let written = write_string-write_bytes fuel formatted buf n io.screen text (omega arith) in
      (
        record {
          mem = filled io.mem buf 0 buf_size;
          screen = write_bytes n formatted buf io.screen;
        },
        rw (written, bzero-formatted vsnprintf buf fmt va io.mem bounded) refl,
        record { n = n; short = short; text = text; screen = refl },
        refl,
      )

  pub print_in_lem :
      (color fuel fmt : ℕ) (va : List ℕ) (io : Io)
      → buf_size ≤ fuel
      → IsReport vsnprintf buf color fmt va io (print_in vsnprintf buf color fuel fmt va io)
  unfolding print_in
  print_in_lem color fuel fmt va io enough =
      let (io', ran, text, mem) = printf_lem fuel fmt va (set_color color io) enough in
      (io'.screen, rw (ran, mem) refl, text)

  -- The value and the state of a call of `info` and of `err`.
  pub info-IsReport :
      (fuel fmt : ℕ) (va : List ℕ) (io : Io)
      → buf_size ≤ fuel
      → (ret : ℤ) × (io' : Io) × (info vsnprintf buf fuel fmt va io ≡ some (ret, io'))
        × IsReport vsnprintf buf cyan fmt va io (some (ret, io'))
  info-IsReport fuel fmt va io enough =
      let (written, ran, text) = print_in_lem cyan fuel fmt va io enough in
      (_, _, ran, (written, refl, text))

  pub err-IsReport :
      (fuel fmt : ℕ) (va : List ℕ) (io : Io)
      → buf_size ≤ fuel
      → (ret : ℤ) × (io' : Io) × (err vsnprintf buf fuel fmt va io ≡ some (ret, io'))
        × IsReport vsnprintf buf light_red fmt va io (some (ret, io'))
  err-IsReport fuel fmt va io enough =
      let (written, ran, text) = print_in_lem light_red fuel fmt va io enough in
      (_, _, ran, (written, refl, text))

  pub info_ends :
      (fuel fmt : ℕ) (va : List ℕ) (io : Io)
      → buf_size ≤ fuel
      → (ret : ℤ) × (io' : Io) × (info vsnprintf buf fuel fmt va io ≡ some (ret, io'))
        × (io'.mem ≡ filled io.mem buf 0 buf_size)
  info_ends fuel fmt va io enough =
      let (written, ran, _) = print_in_lem cyan fuel fmt va io enough in (_, _, ran, refl)

  pub err_ends :
      (fuel fmt : ℕ) (va : List ℕ) (io : Io)
      → buf_size ≤ fuel
      → (ret : ℤ) × (io' : Io) × (err vsnprintf buf fuel fmt va io ≡ some (ret, io'))
        × (io'.mem ≡ filled io.mem buf 0 buf_size)
  err_ends fuel fmt va io enough =
      let (written, ran, _) = print_in_lem light_red fuel fmt va io enough in (_, _, ran, refl)

  -- For a formatter that keeps to its bound, and with at least as many rounds as the buffer has
  -- bytes, `info`, `warn` and `err` end: each writes the formatted text in its own colour on black,
  -- returns what `_vsnprintf` returns, and leaves the buffer full of zeros and every other byte as
  -- it was. Then the colour is black behind and, in front, the two colours of before or-ed
  -- together.
  pub report_lem :
      (fuel fmt : ℕ) (va : List ℕ) (io : Io)
      → buf_size ≤ fuel
      → IsReport vsnprintf buf cyan fmt va io (info vsnprintf buf fuel fmt va io)
        × IsReport vsnprintf buf yellow fmt va io (warn vsnprintf buf fuel fmt va io)
        × IsReport vsnprintf buf light_red fmt va io (err vsnprintf buf fuel fmt va io)
  report_lem fuel fmt va io enough = (
    print_in_lem cyan fuel fmt va io enough,
    print_in_lem yellow fuel fmt va io enough,
    print_in_lem light_red fuel fmt va io enough,
  )
