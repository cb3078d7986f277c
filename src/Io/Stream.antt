-- ===== src/Io/Stream.antt =====
-- src/libcxx/src/iostream.cpp with src/libcxx/include/iostream: the output stream over printf. A stream has no
-- state of its own; the texts of the formats stand at addresses that are parameters.
use ckernel.Prelude.{ℕ, ◌+◌, ◌-◌, ◌^◌, ◌≤◌, ◌≡◌, refl, List, [], ◌∷◌, Option, some, ltb}
use ckernel.Prelude.{if◌then◌else◌, ◌>>=◌}
use ckernel.Mem.Fill.{filled}
use ckernel.Io.{Io, Formatter, buf_size, printf}
use ckernel.Io.Print.{IsBounded, IsWritten, printf_lem}

-- The addresses of "%c", "%d" and "%s".
pub record Formats : Type 0 where
  pub char_format : ℕ
  pub int_format : ℕ
  pub string_format : ℕ

-- A `char`, which has a sign, as an argument of 32 bits.
abbrev pub char_arg : ℕ → ℕ
char_arg c = if ltb c 128 then c else 2 ^ 32 - 256 + c

-- What stands behind a `<<`; a manipulator is a function on the stream.
pub data Item : Type 0 where
  of_char of_int of_string : ℕ → Item
  of_endl : Item

module _ (vsnprintf : Formatter) (buf fuel : ℕ) (f : Formats) where
  pub print_on : ℕ → ℕ → Io → Option Io
  print_on fmt arg io = do (_, io') ← printf vsnprintf buf fuel fmt (arg ∷ []) io; some io'

  abbrev pub out_char : ℕ → Io → Option Io
  out_char c = print_on f.char_format (char_arg c)

  abbrev pub out_int : ℕ → Io → Option Io
  out_int n = print_on f.int_format n

  abbrev pub out_string : ℕ → Io → Option Io
  out_string lhs = print_on f.string_format lhs

  abbrev pub out_manip : (Io → Option Io) → Io → Option Io
  out_manip manip io = manip io

  abbrev pub endl : Io → Option Io
  endl = out_char b'\n'

  -- One `<<`, and several on one stream.
  abbrev pub out : Item → Io → Option Io
  out (of_char c) = out_char c
  out (of_int n) = out_int n
  out (of_string s) = out_string s
  out of_endl = out_manip endl

  pub chain : List Item → Io → Option Io
  chain [] io = some io
  chain (i ∷ is) io = do io' ← out i io; chain is io'

  -- The format and the argument of an item.
  abbrev format_of : Item → ℕ
  format_of (of_char c) = f.char_format
  format_of (of_int n) = f.int_format
  format_of (of_string s) = f.string_format
  format_of of_endl = f.char_format

  abbrev arg_of : Item → ℕ
  arg_of (of_char c) = char_arg c
  arg_of (of_int n) = n
  arg_of (of_string s) = s
  arg_of of_endl = b'\n'

  -- The texts of the items have been written to the screen, one after the other.
  pub data IsShown : List Item → Io → Io → Type 0 where
    nothing : {io : Io} → IsShown [] io io
    shown :
        {i : Item} {is : List Item} {io io' io'' : Io}
        → IsWritten buf
            (vsnprintf buf buf_size (format_of i) (arg_of i ∷ []) io.mem).1
            io.screen
            io'.screen
        → io'.mem ≡ filled io.mem buf 0 buf_size
        → IsShown is io' io''
        → IsShown (i ∷ is) io io''

  module _ (bounded : IsBounded vsnprintf) (enough : buf_size ≤ fuel) where
    abbrev Shows : Item → Io → Type 0
    Shows i io =
        (io' : Io) × (out i io ≡ some io')
        × IsWritten buf (vsnprintf buf buf_size (format_of i) (arg_of i ∷ []) io.mem).1 io.screen
            io'.screen
        × (io'.mem ≡ filled io.mem buf 0 buf_size)

    print_on_lem :
        (fmt arg : ℕ) (io : Io)
        → (io' : Io) × (print_on fmt arg io ≡ some io')
          × IsWritten buf (vsnprintf buf buf_size fmt (arg ∷ []) io.mem).1 io.screen io'.screen
          × (io'.mem ≡ filled io.mem buf 0 buf_size)
    unfolding print_on
    print_on_lem fmt arg io =
        let (io', ran, written, mem) =
          printf_lem vsnprintf buf bounded fuel fmt (arg ∷ []) io enough in
        (io', rw ran refl, written, mem)

    out_lem : (i : Item) (io : Io) → Shows i io
    out_lem (of_char c) io = print_on_lem f.char_format (char_arg c) io
    out_lem (of_int n) io = print_on_lem f.int_format n io
    out_lem (of_string s) io = print_on_lem f.string_format s io
    out_lem of_endl io = print_on_lem f.char_format b'\n' io

    -- For a formatter that keeps to its bound, and with at least as many rounds as the output buffer has bytes,
    -- a chain of `<<` on characters, numbers, strings and `endl` ends, and its texts have been written
    -- to the screen in order.
    pub chain_lem :
        (is : List Item) (io : Io) → (io' : Io) × (chain is io ≡ some io') × IsShown is io io'
    unfolding chain
    chain_lem [] io = (io, refl, nothing)
    chain_lem (i ∷ is) io =
        let (io', ran, written, mem) = out_lem i io in
        let (io'', rest, others) = chain_lem is io' in (io'', rw ran rest, shown written mem others)
