-- ===== src/Verity/Levels.antt =====
-- Where `hash_levels` puts the levels of the hash tree.
use mathlib.Core.Path.{subst}
use native.Mathlib.Nat.{div-le_self}
use rauc.Prelude.{
  ℕ, zero, suc, ◌+◌, ◌-◌, ◌*◌, ◌/◌, ◌%◌, ◌^◌, ◌≤◌, ◌<◌, ◌≡◌, refl, inl, inr, Bool, true, false,
  ◌==◌, ltb, Bool-cases, List, [], ◌∷◌, if◌then◌else◌, Result, ok, err, ok_injective, Result-cases,
  verity_inval, arith,
}
use rauc.Verity.{
  count_levels, max_levels, level_size, place_levels, hash_levels, get_bits_down, hash_block_size,
  digest_size,
}

-- The levels lie one after the other from a position to another, and all of it fits 64 bits.
abbrev pub Tiled : ℕ → List (ℕ × ℕ) → ℕ → Type 0
Tiled from [] to = (from ≡ to) × (from < 2 ^ 64)
Tiled from ((position, size) ∷ levels) to = (position ≡ from) × Tiled (from + size) levels to

level_size-lt : (blocks shift : ℕ) → level_size blocks shift < 2 ^ 64
unfolding level_size
level_size-lt blocks shift =
    let total = (blocks + 2 ^ shift - 1) % 2 ^ 64 in
    let small : total < 2 ^ 64 = omega arith in
    let le = div-le_self total (2 ^ shift) in omega arith

no_wrap : (p s : ℕ) → p < 2 ^ 64 → s < 2 ^ 64 → ltb ((p + s) % 2 ^ 64) p ≡ false → p + s < 2 ^ 64
no_wrap p s h k e = let q : p ≤ (p + s) % 2 ^ 64 = ground arith in omega arith

place_levels-Tiled :
    (bits blocks i position : ℕ) (levels : List (ℕ × ℕ)) (end : ℕ)
    → position < 2 ^ 64
    → place_levels bits blocks i position ≡ ok (levels, end)
    → Tiled position levels end
unfolding place_levels
place_levels-Tiled bits blocks zero position levels end h e =
    subst (λ (x : List (ℕ × ℕ) × ℕ). Tiled position x.0 x.1) (ok_injective e) (refl, h)
place_levels-Tiled bits blocks (suc i) position levels end h e =
    let size = level_size blocks ((i + 1) * bits) in
    elim (Bool-cases (ltb 63 ((i + 1) * bits))) [
      | inl q ↦ absurd (ground arith)
      | inr q ↦ elim (Bool-cases (ltb ((position + size) % 2 ^ 64) position)) [
        | inl w ↦ absurd (ground arith)
        | inr w ↦ elim (Result-cases (place_levels bits blocks i (position + size))) [
          | inr (x, k) ↦ absurd (ground arith)
          | inl ((ls, to), k) ↦
              let same : ok ((position, size) ∷ ls, to) ≡ ok (levels, end) = ground arith in
              subst (λ (x : List (ℕ × ℕ) × ℕ). Tiled position x.0 x.1) (ok_injective same)
                (
                  refl,
                  place_levels-Tiled bits blocks i (position + size) ls to
                      (no_wrap position size h (level_size-lt blocks ((i + 1) * bits)) w) k,
                )
        ]
      ]
    ]

past_check :
    {A : Type 0} (c : Bool) (m : Result A) (a : A)
    → (if c then err verity_inval else m) ≡ ok a
    → m ≡ ok a
past_check true m a e = cc
past_check false m a e = e

-- The levels that `hash_levels` accepts lie one after the other, the highest first, from the
-- given position to the end that it returns, and none of these positions exceeds 64 bits.
pub hash_levels-Tiled :
    (blocks position : ℕ) (levels : List (ℕ × ℕ)) (end : ℕ)
    → position < 2 ^ 64
    → hash_levels blocks position ≡ ok (levels, end)
    → Tiled position levels end
unfolding hash_levels
hash_levels-Tiled blocks position levels end h e =
    let bits = get_bits_down (hash_block_size / digest_size) in
    let count = count_levels 64 bits ((blocks + 2 ^ 64 - 1) % 2 ^ 64) 0 in
    let placed = place_levels bits blocks count position in
    place_levels-Tiled bits blocks count position levels end h (
      past_check (ltb max_levels count) placed (levels, end)
        (past_check (bits == 0) (if ltb max_levels count then err verity_inval else placed)
          (levels, end) e))
