-- ===== src/Verity/Overflow.antt =====
-- The overflow test of `uint64_mult_overflow`.
use native.Mathlib.Nat.{mod-eq_of_lt, mul-div_cancel, div-lt_iff_lt-mul}
use rauc.Prelude.{
  ℕ, ◌*◌, ◌/◌, ◌%◌, ◌^◌, ◌≤◌, ◌<◌, ◌≡◌, ◌⊎◌, ap, inl, inr, true, false, not, ◌==◌, ==_iff, ltb,
  Bool-cases, arith,
}
use rauc.Verity.{uint64_mult_overflow}

fits : (b size : ℕ) → 0 < size → b * size < 2 ^ 64 → b * size % 2 ^ 64 / size ≡ b
fits b size pos small = rw (mod-eq_of_lt small) (mul-div_cancel b pos)

wraps : (b size : ℕ) → 0 < size → 2 ^ 64 ≤ b * size → b * size % 2 ^ 64 / size < b
wraps b size pos big =
    (div-lt_iff_lt-mul pos).1 (let q : b * size % 2 ^ 64 < b * size = omega arith in q)

differs : (a b : ℕ) → a < b → (a == b) ≡ false
differs a b h = ground arith

-- The test of `uint64_mult_overflow` is exact, for a size that is not 0: it says that nothing
-- was lost just in case the product fits 64 bits, and then the result is the product.
pub uint64_mult_overflow-exact :
    (b size : ℕ)
    → 0 < size
    → ((uint64_mult_overflow b size ≡ (b * size, false)) × (b * size < 2 ^ 64))
      ⊎ (((uint64_mult_overflow b size).1 ≡ true) × (2 ^ 64 ≤ b * size))
unfolding uint64_mult_overflow
uint64_mult_overflow-exact b size pos = elim (Bool-cases (ltb (b * size) (2 ^ 64))) [
  | inl e ↦
      let small : b * size < 2 ^ 64 = ground arith in
      let same = (==_iff (b * size % 2 ^ 64 / size) b).1 (fits b size pos small) in
      inl ((λ i. (mod-eq_of_lt small i, not (same i))), small)
  | inr e ↦
      let big : 2 ^ 64 ≤ b * size = ground arith in
      let less = wraps b size pos big in
      inr (ap not (differs (b * size % 2 ^ 64 / size) b less), big)
]
