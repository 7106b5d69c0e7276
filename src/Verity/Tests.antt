-- ===== src/Verity/Tests.antt =====
-- A product that fits and one that does not.
use rauc.Prelude.{refl, [], ◌∷◌, ok, ◌*◌, ◌^◌, ◌≤◌, ◌<◌, ◌≡◌, ◌⊎◌, true, false, arith}
use rauc.Verity.Levels.{Tiled, hash_levels-Tiled}
use rauc.Verity.{hash_levels, get_bits_down, place_levels, level_size, uint64_mult_overflow}
use rauc.Verity.Overflow.{uint64_mult_overflow-exact}

uint64_mult_overflow-exact_example :
    ((uint64_mult_overflow 4503599627370496 4096 ≡ (4503599627370496 * 4096, false))
      × (4503599627370496 * 4096 < 2 ^ 64))
    ⊎ (((uint64_mult_overflow 4503599627370496 4096).1 ≡ true) × (2 ^ 64 ≤ 4503599627370496 * 4096))
uint64_mult_overflow-exact_example = uint64_mult_overflow-exact 4503599627370496 4096 (omega arith)

two_levels : hash_levels 129 1000 ≡ ok ((1000, 1) ∷ (1001, 2) ∷ [], 1003)
unfolding hash_levels get_bits_down place_levels level_size
two_levels = refl

hash_levels-Tiled_example : Tiled 1000 ((1000, 1) ∷ (1001, 2) ∷ []) 1003
hash_levels-Tiled_example =
    hash_levels-Tiled 129 1000 ((1000, 1) ∷ (1001, 2) ∷ []) 1003 (omega arith) two_levels
