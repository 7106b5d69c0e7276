-- ===== src/Verity.antt =====
-- src/verity_hash.c: the arithmetic of the sizes of a dm-verity hash tree.
pub mod Overflow
pub mod Levels
mod Tests
use rauc.Prelude.{
  ℕ, zero, suc, ◌+◌, ◌-◌, ◌*◌, ◌/◌, ◌%◌, ◌^◌, Bool, true, false, not, ◌&&◌, ◌==◌, ltb, List, [],
  ◌∷◌, if◌then◌else◌, Result, ok, err, ◌>>=◌, verity_inval,
}

-- `uint64_mult_overflow`: the product as a `uint64_t`, and whether it did not fit.
unfoldable pub uint64_mult_overflow : ℕ → ℕ → ℕ × Bool
uint64_mult_overflow b size = let u = b * size % 2 ^ 64 in (u, not (u / size == b))

abbrev pub hash_block_size : ℕ
hash_block_size = 4096

abbrev pub digest_size : ℕ
digest_size = 32

abbrev pub max_levels : ℕ
max_levels = 63

-- The loop of `get_bits_down` from `i` on; the 64 bits of a `size_t` are fuel enough.
bits_down_loop : ℕ → ℕ → ℕ → ℕ
bits_down_loop zero u i = i
bits_down_loop (suc f) u i =
    let next = bits_down_loop f u (i + 1) in if ltb 1 (u / 2 ^ i) then next else i

-- `get_bits_down`
unfoldable pub get_bits_down : ℕ → ℕ
unfolding bits_down_loop
get_bits_down u = bits_down_loop 64 u 0

-- The first loop of `hash_levels`, which counts the levels from `levels` on. `last` is
-- `data_file_blocks - 1`. It ends by itself when `bits * levels` reaches 64.
count_levels : ℕ → ℕ → ℕ → ℕ → ℕ
count_levels zero bits last levels = levels
count_levels (suc f) bits last levels =
    let next = count_levels f bits last (levels + 1) in
    if ltb (bits * levels) 64 && ltb 0 (last / 2 ^ (bits * levels)) then next else levels

-- The size of a level: `(data_file_blocks + (1 << shift) - 1) >> shift` on `uint64_t`.
unfoldable pub level_size : ℕ → ℕ → ℕ
level_size blocks shift = (blocks + 2 ^ shift - 1) % 2 ^ 64 / 2 ^ shift

-- The second loop of `hash_levels`, from the highest level down: the position and the size of each
-- level, and the position after them.
unfoldable pub place_levels : ℕ → ℕ → ℕ → ℕ → Result (List (ℕ × ℕ) × ℕ)
place_levels bits blocks zero position = ok ([], position)
place_levels bits blocks (suc i) position =
    let shift = (i + 1) * bits in
    let size = level_size blocks shift in
    let rest = place_levels bits blocks i (position + size) in
    if ltb 63 shift
    then err verity_inval
    else if ltb ((position + size) % 2 ^ 64) position
    then err verity_inval
    else do (levels, end) ← rest; ok ((position, size) ∷ levels, end)

-- `hash_levels`: the levels from the highest one down, and the end of the hash area.
unfoldable pub hash_levels : ℕ → ℕ → Result (List (ℕ × ℕ) × ℕ)
unfolding get_bits_down count_levels
hash_levels data_file_blocks hash_position =
    let bits = get_bits_down (hash_block_size / digest_size) in
    let levels = count_levels 64 bits ((data_file_blocks + 2 ^ 64 - 1) % 2 ^ 64) 0 in
    if bits == 0
    then err verity_inval
    else if ltb max_levels levels
    then err verity_inval
    else place_levels bits data_file_blocks levels hash_position
