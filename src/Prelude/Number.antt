-- ===== src/Prelude/Number.antt =====
-- Numbers as text: `g_ascii_strtoull`, and `%x`, `%u` (`%i` of a number that is not negative)
-- of `printf`. The value is kept unbounded while digits are read, and the overflow is judged at
-- the end: it grows with each digit, so it is beyond the limit at the end if it ever was.
pub mod RoundTrip
use Prim.Native.Nat.{ℕ, zero, suc, ◌+◌, ◌-◌, ◌*◌, ◌/◌, ◌%◌, ◌^◌, ◌<◌, ◌≤◌}
use mathlib.Core.Path.{◌≡◌, refl, ap, ◌∙◌}
use mathlib.Core.Logic.{◌≢◌, inl, inr}
use mathlib.Core.Bool.{Bool, true, false, ◌&&◌, ◌||◌}
use mathlib.Core.Option.{Option, none, some}
use mathlib.Core.List.{List, [], ◌∷◌, ◌++◌}
use native.Mathlib.Omega.{arith}
use rauc.Prelude.Tests.{ltb, leb, ◌==◌, if◌then◌else◌, Bool-cases}
use rauc.Prelude.Lists.{All}
use rauc.Prelude.Strings.{Text, is_space, IsGraphic}

abbrev pub max_uint64 : ℕ
max_uint64 = 2 ^ 64 - 1

-- The value of a digit; a byte that is none gets 99, beyond every base.
unfoldable pub digit_value : ℕ → ℕ
digit_value c =
    if leb b'0' c && leb c b'9'
    then c - b'0'
    else if leb b'A' c && leb c b'Z'
    then c - b'A' + 10
    else if leb b'a' c && leb c b'z'
    then c - b'a' + 10
    else 99

unfoldable pub read_digits : ℕ → ℕ → Text → ℕ
read_digits base acc [] = acc
read_digits base acc (c ∷ s) =
    let rest = read_digits base (acc * base + digit_value c) s in
    if ltb (digit_value c) base then rest else acc

unfoldable pub skip_space : Text → Text
skip_space [] = []
skip_space (c ∷ s) = if is_space c then skip_space s else c ∷ s

-- `0x` before the digits, in base 16 only (the program passes 10 and 16, and 0 in grub.c).
unfoldable pub skip_prefix : ℕ → Text → Text
skip_prefix base [] = []
skip_prefix base (c ∷ []) = c ∷ []
skip_prefix base (c ∷ x ∷ s) =
    if base == 16 && c == b'0' && (x == b'x' || x == b'X') then s else c ∷ x ∷ s

-- Base 0 is told by the prefix: `0x` is 16, `0` is 8, and else 10.
unfoldable pub real_base : ℕ → Text → ℕ
real_base base [] = if base == 0 then 10 else base
real_base base (c ∷ []) = if base == 0 then (if c == b'0' then 8 else 10) else base
real_base base (c ∷ x ∷ s) =
    if base == 0
    then (if c == b'0' then (if x == b'x' || x == b'X' then 16 else 8) else 10)
    else base

abbrev saturate : ℕ → ℕ
saturate n = if leb n max_uint64 then n else max_uint64

abbrev negate : ℕ → ℕ
negate n = if leb n max_uint64 then (2 ^ 64 - n) % 2 ^ 64 else max_uint64

read_unsigned : ℕ → Text → ℕ
unfolding read_digits skip_prefix real_base
read_unsigned base s = let b = real_base base s in read_digits b 0 (skip_prefix b s)

read_signed : ℕ → Text → ℕ
unfolding read_unsigned
read_signed base [] = 0
read_signed base (c ∷ s) =
    if c == b'-'
    then negate (read_unsigned base s)
    else if c == b'+'
    then saturate (read_unsigned base s)
    else saturate (read_unsigned base (c ∷ s))

unfoldable pub strtoull : ℕ → Text → ℕ
unfolding read_signed skip_space digit_value
strtoull base s = read_signed base (skip_space s)

unfoldable pub print_digit : ℕ → ℕ
print_digit d = if ltb d 10 then d + b'0' else d + 87

-- The digits of `n`, put before `s`; the fuel is the number of digits that there is room for.
unfoldable pub print_digits : ℕ → ℕ → ℕ → Text → Text
unfolding print_digit
print_digits zero base n s = s
print_digits (suc f) base n s =
    let more = print_digits f base (n / base) (print_digit (n % base) ∷ s) in
    if ltb n base then print_digit n ∷ s else more

-- `printf("%x", n)` of a 32-bit value has at most 8 digits.
unfoldable pub print_hex : ℕ → Text
print_hex n = print_digits 8 16 n []

-- `printf("%i", n)` of a 32-bit value that is not negative has at most 10 digits.
unfoldable pub print_dec : ℕ → Text
print_dec n = print_digits 10 10 n []
