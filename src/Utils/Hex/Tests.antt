-- ===== src/Utils/Hex/Tests.antt =====
-- A run of the hexadecimal encoding.
use rauc.Prelude.{ℕ, ◌≡◌, List, [], ◌∷◌, some, arith}
use rauc.Utils.Hex.{r_hex_decode, r_hex_encode, r_hex_decode-r_hex_encode}

abbrev bytes : List ℕ
bytes = 0 ∷ 171 ∷ 255 ∷ []

r_hex_decode-r_hex_encode_example : r_hex_decode (r_hex_encode bytes) 3 ≡ some bytes
r_hex_decode-r_hex_encode_example =
    r_hex_decode-r_hex_encode bytes (omega arith, (omega arith, (omega arith, tt)))
