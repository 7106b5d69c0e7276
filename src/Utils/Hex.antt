-- ===== src/Utils/Hex.antt =====
-- src/utils.c: `r_hex_decode` and `r_hex_encode`.
mod Tests
use rauc.Prelude.{
  ℕ, zero, suc, ◌+◌, ◌*◌, ◌/◌, ◌%◌, ◌<◌, ◌≡◌, refl, ap, ◌∙◌, Bool, true, false, ◌&&◌, Option, none,
  some, List, [], ◌∷◌, Text, length, All, ltb, lt→ltb, ◌==◌, digit_value, print_digit,
  if◌then◌else◌, arith,
}
use rauc.Prelude.Number.RoundTrip.{digit_value-print_digit}
use native.Mathlib.Nat.{mod-lt, div-lt_iff_lt-mul}

-- `g_ascii_xdigit_value(c) >= 0`
abbrev is_xdigit_value : ℕ → Bool
is_xdigit_value c = ltb (digit_value c) 16

-- The loop of `r_hex_decode`, two digits a byte.
unfoldable pub decode_bytes : Text → Option (List ℕ)
decode_bytes [] = some []
decode_bytes (u ∷ []) = none
decode_bytes (u ∷ l ∷ s) = elim (decode_bytes s) [
  | none ↦ none
  | some raw ↦
      if is_xdigit_value u && is_xdigit_value l
      then some ((digit_value u * 16 + digit_value l) ∷ raw)
      else none
]

-- `r_hex_decode`
unfoldable pub r_hex_decode : Text → ℕ → Option (List ℕ)
r_hex_decode hex len = if length hex == len * 2 then decode_bytes hex else none

-- `r_hex_encode`
unfoldable pub r_hex_encode : List ℕ → Text
r_hex_encode [] = []
r_hex_encode (b ∷ raw) = print_digit (b / 16) ∷ print_digit (b % 16) ∷ r_hex_encode raw

length-r_hex_encode : (raw : List ℕ) → length (r_hex_encode raw) ≡ length raw * 2
unfolding r_hex_encode
length-r_hex_encode [] = refl
length-r_hex_encode (b ∷ raw) = omega (arith, length-r_hex_encode raw)

decode_bytes-r_hex_encode :
    (raw : List ℕ) → All (λ b. b < 256) raw → decode_bytes (r_hex_encode raw) ≡ some raw
unfolding decode_bytes r_hex_encode
decode_bytes-r_hex_encode [] h = refl
decode_bytes-r_hex_encode (b ∷ raw) (h, hs) =
    let upper : b / 16 < 16 = omega arith in
    let lower : b % 16 < 16 = omega arith in
    rw
      (
        decode_bytes-r_hex_encode raw hs,
        digit_value-print_digit (b / 16) upper,
        digit_value-print_digit (b % 16) lower,
        lt→ltb (b / 16) 16 upper,
        lt→ltb (b % 16) 16 lower,
      )
      (ap (λ n. some (n ∷ raw)) (omega arith))

-- `r_hex_decode` reads back the bytes that `r_hex_encode` writes.
pub r_hex_decode-r_hex_encode :
    (raw : List ℕ)
    → All (λ b. b < 256) raw
    → r_hex_decode (r_hex_encode raw) (length raw) ≡ some raw
unfolding r_hex_decode
r_hex_decode-r_hex_encode raw h =
    ground (arith, length-r_hex_encode raw, decode_bytes-r_hex_encode raw h)
