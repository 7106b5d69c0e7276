-- ===== src/HashIndex/Tests.antt =====
-- Lookups in small indices.
use rauc.Prelude.{
  ℕ, ◌≡◌, ◌⊎◌, refl, true, ◌==◌, ltb, if◌then◌else◌, ok, err, hash_index_not_found, arith,
}
use rauc.HashIndex.{
  HashIndex, key, search, first_entry, valid_entry, entry_after, chunk_entry,
  r_hash_index_get_chunk,
}
use rauc.HashIndex.Search.{IsSorted}
use rauc.HashIndex.Laws.{IsValidEntry, get_chunk_sound, get_chunk_complete}

abbrev hash_of : ℕ → ℕ
hash_of i = if i == 0 then 5 else if ltb i 3 then 7 else 9

-- Four chunks, of which the first two are not valid.
abbrev index : HashIndex
index = record {
  count = 4;
  hashes = hash_of;
  lookup = λ i. i;
  invalid_below = 2;
  invalid_from = 4;
  skip_hash_check = true;
}

index-IsSorted : IsSorted index
unfolding key
index-IsSorted = record { by_hash = λ i j l b. ground arith; by_chunk = λ i j l b e. l }

found : r_hash_index_get_chunk index ok hash_of 7 ≡ ok 2
unfolding r_hash_index_get_chunk chunk_entry entry_after search first_entry valid_entry key
found = refl

get_chunk_sound_example :
    (i : ℕ) × IsValidEntry index 7 i
    × (ok i ≡ ok 2)
    × ((index.skip_hash_check ≡ true) ⊎ (hash_of 2 ≡ 7))
get_chunk_sound_example = get_chunk_sound index 7 ok hash_of 2 found

get_chunk_complete_example : (chunk : ℕ) × (r_hash_index_get_chunk index ok hash_of 7 ≡ ok chunk)
unfolding key
get_chunk_complete_example =
    get_chunk_complete index 7 ok hash_of 2 index-IsSorted (omega arith) (λ e. omega (arith, e))
      (omega arith, refl, omega arith, omega arith) (λ n. (n, refl)) refl

-- Three equal chunks, of which the first one is valid: the lookup does not find it.
abbrev equal : HashIndex
equal = record {
  count = 3;
  hashes = λ i. 7;
  lookup = λ i. i;
  invalid_below = 0;
  invalid_from = 1;
  skip_hash_check = true;
}

not_found : r_hash_index_get_chunk equal ok (λ n. 7) 7 ≡ err hash_index_not_found
unfolding r_hash_index_get_chunk chunk_entry entry_after search first_entry valid_entry key
not_found = refl
