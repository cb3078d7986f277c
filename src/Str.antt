-- ===== src/Str.antt =====
-- src/libc/src/string/string.c, the functions over strings that end in a zero byte. A loop that runs to
-- a zero byte takes fuel; `none` means that the fuel ran out. `char` is signed, as on x86-64.
pub mod Length
pub mod Compare
pub mod Copy
pub mod Reverse
pub mod Magic
pub mod Scan
pub mod Bounded
mod Tests
use ckernel.Prelude.{
  ℕ, zero, suc, ◌+◌, ◌-◌, not, ◌&&◌, Option, none, some, bit_and, bit_or, ◌⊎◌, inl, inr,
}
use ckernel.Prelude.{if◌then◌else◌, ltb, ◌==◌, ◌>>=◌}
use ckernel.Prelude.Int.{ℤ, pos, negsuc, ◌-ℤ◌, eq_ℤ}
use ckernel.Word.{u32, u64, sub64, all_ones, ◌<<<◌}
use ckernel.Mem.{Memory, store, load64, memset, memcpy}

-- The value of a `char`.
abbrev pub signed8 : ℕ → ℤ
signed8 c = if ltb c 128 then pos c else negsuc (255 - c)

pub strlen_loop : ℕ → Memory → ℕ → ℕ → Option ℕ
strlen_loop zero m str len = none
strlen_loop (suc fuel) m str len =
    let rest = strlen_loop fuel m str (len + 1) in if m (str + len) == 0 then some len else rest

pub strlen : ℕ → Memory → ℕ → Option ℕ
unfolding strlen_loop
strlen fuel m str = strlen_loop fuel m str 0

-- The bits of `strnlen` at 64 bits: the top bit of each byte, and the lowest one.
abbrev pub himagic : ℕ
himagic = bit_or ((0x80808080 <<< 16) <<< 16) 0x80808080

abbrev pub lomagic : ℕ
lomagic = bit_or ((0x01010101 <<< 16) <<< 16) 0x01010101

-- `char_ptr - _str`, after `char_ptr` has been cut to `end_ptr`.
abbrev pub distance : ℕ → ℕ → ℕ → ℕ
distance str end_ptr char_ptr = (if ltb end_ptr char_ptr then end_ptr else char_ptr) - str

-- The loop up to the next multiple of 8: the result of `strnlen`, or the aligned pointer.
pub strnlen_head : ℕ → Memory → ℕ → ℕ → ℕ → Option (ℕ ⊎ ℕ)
strnlen_head zero m str end_ptr char_ptr = none
strnlen_head (suc fuel) m str end_ptr char_ptr =
    let rest = strnlen_head fuel m str end_ptr (char_ptr + 1) in
    if bit_and char_ptr (8 - 1) == 0
    then some (inr char_ptr)
    else if m char_ptr == 0
    then some (inl (distance str end_ptr char_ptr))
    else rest

-- The tests of the bytes from `cp` on, with the number of bytes left; `none` is a misfire.
pub zero_byte : ℕ → Memory → ℕ → Option ℕ
zero_byte zero m cp = none
zero_byte (suc left) m cp =
    let rest = zero_byte left m (cp + 1) in if m cp == 0 then some cp else rest

-- The loop over words; the result is `char_ptr` at its end.
pub strnlen_words : ℕ → Memory → ℕ → ℕ → ℕ → Option ℕ
strnlen_words zero m end_ptr longword_ptr char_ptr = none
strnlen_words (suc fuel) m end_ptr longword_ptr char_ptr =
    let longword = load64 m longword_ptr in
    let rest = strnlen_words fuel m end_ptr (u64 (longword_ptr + 8)) end_ptr in
    if not (ltb longword_ptr end_ptr)
    then some char_ptr
    else if bit_and (sub64 longword lomagic) himagic == 0
    then rest
    else elim (zero_byte 8 m longword_ptr) [ none ↦ rest | some cp ↦ some cp ]

-- `strnlen` behind its first loop.
abbrev pub strnlen_tail : ℕ → Memory → ℕ → ℕ → ℕ ⊎ ℕ → Option ℕ
strnlen_tail fuel m str end_ptr (inl result) = some result
strnlen_tail fuel m str end_ptr (inr char_ptr) = do
  found ← strnlen_words fuel m end_ptr char_ptr char_ptr
  some (distance str end_ptr found)

pub strnlen : ℕ → Memory → ℕ → ℕ → Option ℕ
strnlen fuel m str maxlen =
    let sum = u64 (str + maxlen) in
    let end_ptr = if ltb sum str then all_ones else sum in
    if maxlen == 0
    then some 0
    else strnlen_head fuel m str end_ptr str >>= strnlen_tail fuel m str end_ptr

-- Returns `_s1`.
pub strncpy : ℕ → Memory → ℕ → ℕ → ℕ → Option (ℕ × Memory)
strncpy fuel m s1 s2 n = do
  size ← strnlen fuel m s2 n
  let filled = if not (size == n) then (memset m (s1 + size) 0 (n - size)).1 else m
  some (memcpy filled s1 s2 size)

pub strcmp : ℕ → Memory → ℕ → ℕ → Option ℤ
strcmp zero m src dest = none
strcmp (suc fuel) m src dest =
    let rest = strcmp fuel m (src + 1) (dest + 1) in
    if not (m src == 0) && (not (m dest == 0) && m src == m dest)
    then rest
    else some (signed8 (m src) -ℤ signed8 (m dest))

-- The body of the `do` loop, with `_n` rounds left.
pub strncmp : Memory → ℕ → ℕ → ℕ → ℤ
strncmp m s1 s2 zero = pos 0
strncmp m s1 s2 (suc n) =
    let rest = strncmp m (s1 + 1) (s2 + 1) n in
    if m s1 == m s2 then (if m s1 == 0 then pos 0 else rest) else pos (m s1) -ℤ pos (m s2)

pub strcpy_loop : ℕ → ℕ → ℕ → Memory → Option Memory
strcpy_loop zero dest src m = none
strcpy_loop (suc fuel) dest src m =
    let c = m src in
    let m' = store m dest c in
    let rest = strcpy_loop fuel (dest + 1) (src + 1) m' in if c == 0 then some m' else rest

-- Returns `dest`.
pub strcpy : ℕ → Memory → ℕ → ℕ → Option (ℕ × Memory)
strcpy fuel m dest src = do m' ← strcpy_loop fuel dest src m; some (dest, m')

-- Of an empty string the index is ~(size_t)0, and the sum wraps to the byte before the string.
pub backspace : ℕ → Memory → ℕ → Option Memory
backspace fuel m src = do len ← strlen fuel m src; some (store m (u64 (src + sub64 len 1)) 0)

pub append : ℕ → Memory → ℕ → ℕ → Option Memory
append fuel m src c = do
  len ← strlen fuel m src
  some (store (store m (src + len) c) (src + (len + 1)) 0)

pub find_end : ℕ → Memory → ℕ → Option ℕ
find_end zero m d = none
find_end (suc fuel) m d = let rest = find_end fuel m (d + 1) in if m d == 0 then some d else rest

pub strcat_loop : ℕ → ℕ → ℕ → Memory → Option Memory
strcat_loop zero d src m = none
strcat_loop (suc fuel) d src m =
    let rest = strcat_loop fuel (d + 1) (src + 1) (store m d (m src)) in
    if m src == 0 then some m else rest

strcat_from : ℕ → Memory → ℕ → ℕ → Option (ℕ × Memory)
strcat_from fuel m dest src = do
  d ← find_end fuel m dest
  m' ← strcat_loop fuel d src m
  some (dest, m')

pub strcat : ℕ → Memory → ℕ → ℕ → Option (ℕ × Memory)
unfolding strcat_from
strcat fuel m dest src =
    if not (dest == 0) && not (src == 0) then strcat_from fuel m dest src else some (dest, m)

-- `*_s == _c` compares a `char` with an `int`. 0 is NULL.
pub strchr : ℕ → Memory → ℕ → ℤ → Option ℕ
strchr zero m s c = none
strchr (suc fuel) m s c =
    let rest = strchr fuel m (s + 1) c in
    if eq_ℤ (signed8 (m s)) c then some s else if m s == 0 then some 0 else rest

-- `for (i = 0, j = len - 1; i < j; i++, j--)`. The rounds left are at most `len`.
pub strrev_loop : ℕ → Memory → ℕ → ℕ → ℕ → Memory
strrev_loop zero m str i j = m
strrev_loop (suc left) m str i j =
    let swapped = store (store m (str + i) (m (str + j))) (str + j) (m (str + i)) in
    let rest = strrev_loop left swapped str (i + 1) (j - 1) in if ltb i j then rest else m

-- The length is cut to an `unsigned`; of an empty string `j` is -1, and the loop has no rounds.
pub strrev : ℕ → Memory → ℕ → Option Memory
strrev fuel m str = do
  size ← strlen fuel m str
  let len = u32 size
  some (strrev_loop len m str 0 (len - 1))
