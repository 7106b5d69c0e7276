-- ===== src/Prelude/Number/RoundTrip.antt =====
-- What `printf` writes `g_ascii_strtoull` reads back.
use mathlib.Core.Path.{◌≡◌, refl, ap, ◌∙◌}
use mathlib.Core.Logic.{◌⊎◌, ◌≢◌, inl, inr}
use mathlib.Core.List.{[], ◌∷◌}
use Prim.Native.Nat.{ℕ, zero, suc, ◌+◌, ◌*◌, ◌/◌, ◌%◌, ◌^◌, ◌<◌, ◌≤◌}
use Prim.Native.Nat.pow
use native.Mathlib.Omega.{arith}
use native.Mathlib.Nat.{pow-suc, mod-lt, div-lt_iff_lt-mul}
use rauc.Prelude.Tests.{ltb, ltb→lt, lt→ltb, Bool-cases}
use rauc.Prelude.Lists.{All}
use rauc.Prelude.Split.{Free}
use rauc.Prelude.Strings.{Text, IsGraphic}
use rauc.Prelude.Number.{
  digit_value, read_digits, read_signed, read_unsigned, skip_space, skip_prefix, real_base,
  strtoull, print_digit, print_digits, print_hex, print_dec,
}

pub digit_value-print_digit : (d : ℕ) → d < 16 → digit_value (print_digit d) ≡ d
unfolding digit_value print_digit
digit_value-print_digit d h = ground arith

-- A digit is no space, no sign and no `x`.
abbrev IsDigit : ℕ → Type 0
IsDigit c = ((48 ≤ c) × (c ≤ 57)) ⊎ ((97 ≤ c) × (c ≤ 102))

print_digit-IsDigit : (d : ℕ) → d < 16 → IsDigit (print_digit d)
unfolding print_digit
print_digit-IsDigit d h = ground arith

mod-lt-pos : (b n : ℕ) → 2 ≤ b → n % b < b
mod-lt-pos b n h = grind arith

div-mod : (b n : ℕ) → n / b * b + n % b ≡ n
div-mod b n = grind arith

div-lt-pow : (f b n : ℕ) → 2 ≤ b → n < b ^ suc f → n / b < b ^ f
div-lt-pow f b n h l =
    let q : n < b ^ f * b = rw (← pow-suc) l in (div-lt_iff_lt-mul (omega arith)).1 q

read_digits_cons :
    (b acc d : ℕ) (s : Text)
    → d < b
    → b ≤ 16
    → read_digits b acc (print_digit d ∷ s) ≡ read_digits b (acc * b + d) s
unfolding read_digits
read_digits_cons b acc d s h k = rw (digit_value-print_digit d (omega arith), lt→ltb d b h)

read_digits-print_digits :
    (f b n : ℕ) (s : Text)
    → 2 ≤ b
    → b ≤ 16
    → n < b ^ f
    → read_digits b 0 (print_digits f b n s) ≡ read_digits b n s
unfolding print_digits
read_digits-print_digits zero b n s h k l = let e : n ≡ 0 = omega (arith, pow.zero b) in rw e refl
read_digits-print_digits (suc f) b n s h k l = elim (Bool-cases (ltb n b)) [
  | inl e ↦
      rw e (read_digits_cons b 0 n s (ltb→lt n b e) k ∙ ap (λ m. read_digits b m s) (omega arith))
  | inr e ↦ rw e (
      read_digits-print_digits f b (n / b) (print_digit (n % b) ∷ s) h k (div-lt-pow f b n h l)
      ∙ read_digits_cons b (n / b) (n % b) s (mod-lt-pos b n h) k
      ∙ ap (λ m. read_digits b m s) (div-mod b n))
]

print_digits-IsDigit :
    (f b n : ℕ) (s : Text) → 2 ≤ b → b ≤ 16 → All IsDigit s → All IsDigit (print_digits f b n s)
unfolding print_digits
print_digits-IsDigit zero b n s h k l = l
print_digits-IsDigit (suc f) b n s h k l = elim (Bool-cases (ltb n b)) [
  | inl e ↦ rw e (print_digit-IsDigit n (ground arith), l)
  | inr e ↦ rw e (
      print_digits-IsDigit f b (n / b) (print_digit (n % b) ∷ s) h k
        (print_digit-IsDigit (n % b) (grind (arith, mod-lt)), l))
]

skip_space_digit : (c : ℕ) (s : Text) → IsDigit c → skip_space (c ∷ s) ≡ c ∷ s
unfolding skip_space
skip_space_digit c s h = ground arith

skip_prefix_digits : (b : ℕ) (s : Text) → All IsDigit s → skip_prefix b s ≡ s
unfolding skip_prefix
skip_prefix_digits b [] h = refl
skip_prefix_digits b (c ∷ []) h = refl
skip_prefix_digits b (c ∷ x ∷ s) (h, (k, l)) = ground arith

real_base_pos : (b : ℕ) (s : Text) → 1 ≤ b → real_base b s ≡ b
unfolding real_base
real_base_pos b [] h = ground arith
real_base_pos b (c ∷ []) h = ground arith
real_base_pos b (c ∷ x ∷ s) h = ground arith

strtoull_digits :
    (b : ℕ) (s : Text)
    → 1 ≤ b
    → All IsDigit s
    → read_digits b 0 s < 2 ^ 64
    → strtoull b s ≡ read_digits b 0 s
unfolding strtoull read_signed read_unsigned
strtoull_digits b [] p h l = refl
strtoull_digits b (c ∷ s) p h l =
    rw (skip_space_digit c s h.0)
      (ground (arith, real_base_pos b (c ∷ s) p, skip_prefix_digits b (c ∷ s) h))

hex_value : (n : ℕ) → n < 2 ^ 32 → read_digits 16 0 (print_digits 8 16 n []) ≡ n
unfolding read_digits
hex_value n h = read_digits-print_digits 8 16 n [] (omega arith) (omega arith) (omega arith)

-- `strtoull` in base 16 reads back what `%x` writes, for every 32-bit value.
pub strtoull-print_hex : (n : ℕ) → n < 2 ^ 32 → strtoull 16 (print_hex n) ≡ n
unfolding print_hex
strtoull-print_hex n h =
    strtoull_digits 16 (print_digits 8 16 n []) (omega arith)
      (print_digits-IsDigit 8 16 n [] (omega arith) (omega arith) tt)
      (rw (hex_value n h) (omega arith))
    ∙ hex_value n h

digits-IsGraphic : (s : Text) → All IsDigit s → All IsGraphic s
digits-IsGraphic [] h = tt
digits-IsGraphic (c ∷ s) h = (ground arith, digits-IsGraphic s h.1)

pub print_hex-IsGraphic : (n : ℕ) → All IsGraphic (print_hex n)
unfolding print_hex
print_hex-IsGraphic n =
    digits-IsGraphic (print_digits 8 16 n [])
      (print_digits-IsDigit 8 16 n [] (omega arith) (omega arith) tt)

dec_value : (n : ℕ) → n < 2 ^ 32 → read_digits 10 0 (print_digits 10 10 n []) ≡ n
unfolding read_digits
dec_value n h = read_digits-print_digits 10 10 n [] (omega arith) (omega arith) (omega arith)

-- `strtoull` in base 10 reads back what `%u` writes, for every 32-bit value.
pub strtoull-print_dec : (n : ℕ) → n < 2 ^ 32 → strtoull 10 (print_dec n) ≡ n
unfolding print_dec
strtoull-print_dec n h =
    strtoull_digits 10 (print_digits 10 10 n []) (omega arith)
      (print_digits-IsDigit 10 10 n [] (omega arith) (omega arith) tt)
      (rw (dec_value n h) (omega arith))
    ∙ dec_value n h

pub print_dec-IsGraphic : (n : ℕ) → All IsGraphic (print_dec n)
unfolding print_dec
print_dec-IsGraphic n =
    digits-IsGraphic (print_digits 10 10 n [])
      (print_digits-IsDigit 10 10 n [] (omega arith) (omega arith) tt)

print_digits_nonempty : (f b n c : ℕ) (s : Text) → print_digits f b n (c ∷ s) ≢ []
unfolding print_digits
print_digits_nonempty zero b n c s e = cc
print_digits_nonempty (suc f) b n c s e =
    ground (arith, print_digits_nonempty f b (n / b) (print_digit (n % b)) (c ∷ s))

pub print_dec-ne-nil : (n : ℕ) → print_dec n ≢ []
unfolding print_dec print_digits
print_dec-ne-nil n e = ground (arith, print_digits_nonempty 9 10 (n / 10) (print_digit (n % 10)) [])

digits-Free : (s : Text) → All IsDigit s → Free 61 s
digits-Free [] h = tt
digits-Free (c ∷ s) h = (ground arith, digits-Free s h.1)

-- A number has no `=`.
pub print_dec-Free : (n : ℕ) → Free 61 (print_dec n)
unfolding print_dec
print_dec-Free n =
    digits-Free (print_digits 10 10 n [])
      (print_digits-IsDigit 10 10 n [] (omega arith) (omega arith) tt)
