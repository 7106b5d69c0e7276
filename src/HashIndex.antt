-- ===== src/HashIndex.antt =====
-- src/hash_index.c: the lookup of a chunk by its hash.
pub mod Search
pub mod Laws
mod Tests
use rauc.Prelude.{
  ℕ, zero, suc, ◌+◌, ◌-◌, ◌/◌, ◌%◌, ◌^◌, Bool, true, false, not, ◌&&◌, ◌||◌, Option, none, some,
  ltb, leb, ◌==◌, if◌then◌else◌, Result, ok, err, ◌>>=◌, hash_index_not_found, hash_index_modified,
  no_error,
}

-- `RaucHashIndex`, without the label and the statistics. A hash is the number that its 32 bytes
-- write, the first byte first, so that `memcmp` compares numbers.
pub record HashIndex : Type 0 where
  pub count : ℕ
  pub hashes : ℕ → ℕ
  pub lookup : ℕ → ℕ
  pub invalid_below : ℕ
  pub invalid_from : ℕ
  pub skip_hash_check : Bool

-- The hash of an entry of the lookup table.
unfoldable pub key : HashIndex → ℕ → ℕ
key idx i = idx.hashes (idx.lookup i)

-- The entry in the middle.
abbrev pub middle_of : ℕ → ℕ → ℕ
middle_of left right = left + (right - left) / 2

module _ (idx : HashIndex) (hash : ℕ) where
  -- The binary search, on fuel, with the bounds as 32-bit numbers.
  unfoldable pub search : ℕ → ℕ → ℕ → Option ℕ
  search zero left right = none
  search (suc fuel) left right =
      let middle = middle_of left right in
      let above = search fuel ((middle + 1) % 2 ^ 32) right in
      let below = search fuel left (middle - 1) in
      if not (leb left right)
      then none
      else if key idx middle == hash
      then some middle
      else if ltb (key idx middle) hash
      then above
      else if ltb 0 middle
      then below
      else none

  -- The loop for the first entry with the hash, which counts down from `i`.
  unfoldable pub first_entry : ℕ → ℕ → ℕ
  first_entry zero middle = middle
  first_entry (suc i) middle =
      let rest = first_entry i middle in if key idx i == hash then rest else suc i

  -- The loop for the first valid entry, with one step for each entry from `i`.
  unfoldable pub valid_entry : ℕ → ℕ → Option ℕ
  valid_entry zero i = none
  valid_entry (suc steps) i =
      let rest = valid_entry steps (suc i) in
      if not (key idx i == hash)
      then none
      else if leb idx.invalid_from (idx.lookup i)
      then none
      else if ltb (idx.lookup i) idx.invalid_below
      then (if ltb i (idx.count - 1) then rest else none)
      else some i

  -- The loops after the search.
  unfoldable pub entry_after : Option ℕ → Option ℕ
  entry_after none = none
  entry_after (some middle) =
      let first = first_entry middle middle in valid_entry (idx.count - first) first

  -- The entry that `r_hash_index_get_chunk` reads.
  unfoldable pub chunk_entry : Option ℕ
  chunk_entry = entry_after (search idx.count 0 (idx.count - 1))

-- `r_hash_index_get_chunk`, with `r_pread_exact` of a chunk and `hash_chunk`.
unfoldable pub r_hash_index_get_chunk :
    {Chunk : Type 0} → HashIndex → (ℕ → Result Chunk) → (Chunk → ℕ) → ℕ → Result Chunk
r_hash_index_get_chunk idx read hash_chunk hash =
    if idx.count == 0 then err no_error else elim (chunk_entry idx hash) [
      | none ↦ err hash_index_not_found
      | some i ↦
          (read (idx.lookup i) >>= λ chunk.
          if idx.skip_hash_check || hash_chunk chunk == hash
          then ok chunk
          else err hash_index_modified)
    ]
