-- ===== src/Vga/Format.antt =====
-- The formats of vga_printf as data, and what they print.
use ckernel.Prelude.{ℕ, ◌+◌, ◌%◌, ◌^◌, ◌<◌, ◌≡◌, ◌≢◌}
use ckernel.Prelude.{List, [], ◌∷◌, ◌++◌, length}
use ckernel.Word.{u8, u32, u64}
use ckernel.Mem.{Memory}
use ckernel.Str.Length.{IsString}
use ckernel.Vga.Digits.{IsNumeral, IsSigned, value}
use ckernel.Vga.Text.{bytes_at}
use Prim.{Unit}

pub data Conversion : Type 0 where
  signed unsigned hex pointer char string long_signed long_unsigned long_hex : Conversion

-- What a format is made of.
pub data Piece : Type 0 where
  plain : ℕ → Piece
  conv : Conversion → Piece
  unknown : ℕ → Piece

abbrev pub code : Conversion → List ℕ
code signed = b'%' ∷ b'd' ∷ []
code unsigned = b'%' ∷ b'u' ∷ []
code hex = b'%' ∷ b'x' ∷ []
code pointer = b'%' ∷ b'p' ∷ []
code char = b'%' ∷ b'c' ∷ []
code string = b'%' ∷ b's' ∷ []
code long_signed = b'%' ∷ b'l' ∷ b'd' ∷ []
code long_unsigned = b'%' ∷ b'l' ∷ b'u' ∷ []
code long_hex = b'%' ∷ b'l' ∷ b'x' ∷ []

abbrev pub source : Piece → List ℕ
source (plain c) = c ∷ []
source (conv k) = code k
source (unknown c) = b'%' ∷ c ∷ []

abbrev pub format : List Piece → List ℕ
format [] = 0 ∷ []
format (p ∷ ps) = source p ++ format ps

-- The bytes from `s` on.
abbrev pub Holds : Memory → ℕ → List ℕ → Type 0
Holds m s [] = Unit
Holds m s (c ∷ cs) = (m s ≡ c) × Holds m (s + 1) cs

-- `a` can be printed by the conversion: it is not the least signed number, or the address of a string of
-- fewer than `bound` bytes.
abbrev pub IsArg : ℕ → Memory → Conversion → ℕ → Type 0
IsArg bound m signed a = u32 a ≢ 2 ^ 31
IsArg bound m long_signed a = u64 a ≢ 2 ^ 63
IsArg bound m string a = (n : ℕ) × IsString m a n × (n < bound)
IsArg bound m k a = Unit

-- The text of an argument. Of a pointer only the low 32 bits are printed.
abbrev pub IsText : Memory → Conversion → ℕ → List ℕ → Type 0
IsText m signed a text = IsSigned 32 (u32 a) text
IsText m unsigned a text = IsNumeral 10 (u32 a) text
IsText m hex a text = IsNumeral 16 (u32 a) text
IsText m pointer a text =
    (ds : List ℕ) × (text ≡ b'0' ∷ b'x' ∷ ds) × (length ds ≡ 8) × (value 16 0 ds ≡ a % 2 ^ 32)
IsText m char a text = text ≡ u8 a ∷ []
IsText m string a text = (n : ℕ) × IsString m a n × (text ≡ bytes_at m a n)
IsText m long_signed a text = IsSigned 64 (u64 a) text
IsText m long_unsigned a text = IsNumeral 10 (u64 a) text
IsText m long_hex a text = IsNumeral 16 (u64 a) text

-- The letters behind `%` that mean something, and the end of the format.
abbrev pub IsUnknown : ℕ → Type 0
IsUnknown c =
    (c ≢ 0)
    × (c ≢ b'd')
    × (c ≢ b'u')
    × (c ≢ b'x')
    × (c ≢ b'p')
    × (c ≢ b'l')
    × (c ≢ b'c')
    × (c ≢ b's')

-- The arguments fit the format.
abbrev pub IsReady : ℕ → Memory → List Piece → List ℕ → Type 0
IsReady bound m [] args = Unit
IsReady bound m (plain c ∷ ps) args = (c ≢ 0) × (c ≢ b'%') × IsReady bound m ps args
IsReady bound m (conv k ∷ ps) [] = ◌≡◌ {A = ℕ} 0 1
IsReady bound m (conv k ∷ ps) (a ∷ args) = IsArg bound m k a × IsReady bound m ps args
IsReady bound m (unknown c ∷ ps) args = IsUnknown c × IsReady bound m ps args

-- What the format prints.
pub data Prints (m : Memory) : List Piece → List ℕ → List ℕ → Type 0 where
  done : {args : List ℕ} → Prints m [] args []
  put :
      {ps : List Piece} {args text : List ℕ} (c : ℕ)
      → Prints m ps args text
      → Prints m (plain c ∷ ps) args (c ∷ text)
  put_arg :
      {ps : List Piece} {args rest : List ℕ} (k : Conversion) (a : ℕ) (text : List ℕ)
      → IsText m k a text
      → Prints m ps args rest
      → Prints m (conv k ∷ ps) (a ∷ args) (text ++ rest)
  put_unknown :
      {ps : List Piece} {args text : List ℕ} (c : ℕ)
      → Prints m ps args text
      → Prints m (unknown c ∷ ps) args (b'%' ∷ c ∷ text)
