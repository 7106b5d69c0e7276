-- ===== src/HashIndex/Laws.antt =====
-- What `r_hash_index_get_chunk` returns, and when it finds a chunk.
use rauc.Prelude.{
  ℕ, zero, suc, ◌+◌, ◌-◌, ◌^◌, ◌<◌, ◌≤◌, ◌≡◌, ◌≢◌, refl, sym, ap, ◌∙◌, ◌⊎◌, inl, inr, true, false,
  ◌||◌, Bool-cases, Option-cases, some, ltb, leb, lt→ltb, ltb→lt, ◌==◌, Result, ok, >>=-eq-ok,
  ok_injective, arith,
}
use mathlib.Core.Path.{subst}
use rauc.HashIndex.{
  HashIndex, key, search, first_entry, valid_entry, entry_after, chunk_entry,
  r_hash_index_get_chunk,
}
use rauc.HashIndex.Search.{IsSorted, Found, search-key, search_complete}

-- An entry with the hash whose chunk is in the valid range.
abbrev pub IsValidEntry : HashIndex → ℕ → ℕ → Type 0
IsValidEntry idx hash i =
    (i < idx.count)
    × (key idx i ≡ hash)
    × (idx.invalid_below ≤ idx.lookup i)
    × (idx.lookup i < idx.invalid_from)

module _ (idx : HashIndex) (hash : ℕ) where
  first_entry_bound : (i m : ℕ) → i ≤ m → first_entry idx hash i m ≤ m
  unfolding first_entry
  first_entry_bound zero m l = omega arith
  first_entry_bound (suc i) m l = ground (arith, first_entry_bound i m (omega arith))

  -- Where the first entry of all has another hash, the loop ends right after an entry that has
  -- another hash.
  first_entry_lem :
      (i m : ℕ)
      → key idx 0 ≢ hash
      → key idx i ≡ hash
      → (key idx (first_entry idx hash i m) ≡ hash)
        × (1 ≤ first_entry idx hash i m)
        × (first_entry idx hash i m ≤ i)
        × (key idx (first_entry idx hash i m - 1) ≢ hash)
  unfolding first_entry
  first_entry_lem zero m z k = absurd (z k)
  first_entry_lem (suc i) m z k = elim (Bool-cases (key idx i == hash)) [
    | inl e ↦ let (a, b, c, d) = first_entry_lem i m z (ground arith) in rw e (a, b, omega arith, d)
    | inr e ↦ rw e (k, omega arith, omega arith, λ h. ground arith)
  ]

  valid_entry_sound :
      (steps i j : ℕ)
      → i + steps ≤ idx.count
      → valid_entry idx hash steps i ≡ some j
      → IsValidEntry idx hash j
  unfolding valid_entry
  valid_entry_sound zero i j b h = cc
  valid_entry_sound (suc steps) i j b h =
      ground (arith, valid_entry_sound steps (suc i) j (omega arith))

  valid_entry_complete :
      (steps i j : ℕ)
      → IsSorted idx
      → IsValidEntry idx hash j
      → i ≤ j
      → i + steps ≡ idx.count
      → key idx i ≡ hash
      → Found (valid_entry idx hash steps i)
  unfolding valid_entry
  valid_entry_complete zero i j s (b, h, g, f) l c k = absurd (omega arith)
  valid_entry_complete (suc steps) i j s (b, h, g, f) l c k =
      let order : idx.lookup i ≤ idx.lookup j = s.by_chunk i j l b (k ∙ sym h) in
      let same : (key idx i == hash) ≡ true = ground arith in
      let early : leb idx.invalid_from (idx.lookup i) ≡ false = ground arith in
      elim (Bool-cases (ltb (idx.lookup i) idx.invalid_below)) [
        | inr high ↦ (i, rw (same, early, high) refl)
        | inl low ↦
            let before : i < j = different i j low g l in
            let inside : ltb i (idx.count - 1) ≡ true = lt→ltb i (idx.count - 1) (omega arith) in
            let next : key idx (suc i) ≡ hash = between i j s k h before b in
            rw (same, early, low, inside)
              (valid_entry_complete steps (suc i) j s (b, h, g, f) before (omega arith) next)
      ]
    where
      different :
          (i j : ℕ)
          → ltb (idx.lookup i) idx.invalid_below ≡ true
          → idx.invalid_below ≤ idx.lookup j
          → i ≤ j
          → i < j
      different i j low g l = elim (Bool-cases (ltb i j)) [
        | inl e ↦ ltb→lt i j e
        | inr e ↦
            let same : i ≡ j = ground arith in
            absurd (
              let z = subst (λ x. ltb (idx.lookup x) idx.invalid_below ≡ true) same low in
              ground arith)
      ]

      between :
          (i j : ℕ)
          → IsSorted idx
          → key idx i ≡ hash
          → key idx j ≡ hash
          → i < j
          → j < idx.count
          → key idx (suc i) ≡ hash
      between i j s k h l b =
          let p = s.by_hash i (suc i) (omega arith) (omega arith) in
          let q = s.by_hash (suc i) j l b in omega arith

  first-before :
      (f j : ℕ)
      → IsSorted idx
      → 1 ≤ f
      → f < idx.count
      → key idx f ≡ hash
      → key idx (f - 1) ≢ hash
      → key idx j ≡ hash
      → j < idx.count
      → f ≤ j
  first-before f j s pos b k n h l = elim (Bool-cases (ltb j f)) [
    | inr e ↦ ground arith
    | inl e ↦
        let less = ltb→lt j f e in
        let p = s.by_hash j (f - 1) (omega arith) (omega arith) in
        let q = s.by_hash (f - 1) f (omega arith) b in absurd (n (omega arith))
  ]

  chunk_entry_sound :
      (j : ℕ) → 0 < idx.count → chunk_entry idx hash ≡ some j → IsValidEntry idx hash j
  unfolding chunk_entry entry_after
  chunk_entry_sound j p h = elim (Option-cases (search idx hash idx.count 0 (idx.count - 1))) [
    | inl e ↦ absurd (let z = ap (entry_after idx hash) (sym e) ∙ h in cc)
    | inr (m, e) ↦
        let (k, b) = search-key idx hash idx.count 0 (idx.count - 1) m (omega arith) e in
        let f = first_entry_bound m m (omega arith) in
        valid_entry_sound (idx.count - first_entry idx hash m m) (first_entry idx hash m m) j
          (omega arith) (ap (entry_after idx hash) (sym e) ∙ h)
  ]

  chunk_entry_complete :
      (j : ℕ)
      → IsSorted idx
      → idx.count < 2 ^ 32
      → key idx 0 ≢ hash
      → IsValidEntry idx hash j
      → Found (chunk_entry idx hash)
  unfolding chunk_entry entry_after
  chunk_entry_complete j s c z v =
      let (b, h, g, f) = v in
      let (m, e) =
        search_complete idx hash idx.count 0 (idx.count - 1) j s c (omega arith) (omega arith)
          (omega arith) (omega arith) h in
      let (k, in_table) = search-key idx hash idx.count 0 (idx.count - 1) m (omega arith) e in
      let (same, pos, bound, before) = first_entry_lem m m z k in
      let first = first_entry idx hash m m in
      subst (λ x. Found (entry_after idx hash x)) (sym e)
        (valid_entry_complete (idx.count - first) first j s v
          (first-before first j s pos (omega arith) same before h b) (omega arith) same)

  module _ {Chunk : Type 0} (read : ℕ → Result Chunk) (hash_chunk : Chunk → ℕ) where
    -- A chunk that `r_hash_index_get_chunk` returns is the one of an entry that has the hash and is
    -- in the valid range, and it has the hash itself unless the check of the hash is skipped.
    pub get_chunk_sound :
        (chunk : Chunk)
        → r_hash_index_get_chunk idx read hash_chunk hash ≡ ok chunk
        → (i : ℕ) × IsValidEntry idx hash i
          × (read (idx.lookup i) ≡ ok chunk)
          × ((idx.skip_hash_check ≡ true) ⊎ (hash_chunk chunk ≡ hash))
    unfolding r_hash_index_get_chunk
    get_chunk_sound chunk h = elim (Bool-cases (idx.count == 0)) [
      | inl e ↦ absurd (let z = rw e at h in cc)
      | inr e ↦ elim (Option-cases (chunk_entry idx hash)) [
        | inl n ↦ absurd (let z = rw (e, n) at h in cc)
        | inr (i, f) ↦
            let (c, is_read, checked) = >>=-eq-ok (read (idx.lookup i)) _ (rw (e, f) at h) in
            elim (Bool-cases (idx.skip_hash_check || hash_chunk c == hash)) [
              | inr z ↦ absurd (let bad = rw z at checked in cc)
              | inl z ↦
                  let same : c ≡ chunk = ok_injective (rw z at checked) in
                  (
                    i,
                    chunk_entry_sound i (ground arith) f,
                    is_read ∙ ap ok same,
                    subst (λ x. (idx.skip_hash_check ≡ true) ⊎ (hash_chunk x ≡ hash)) same
                        (ground arith),
                  )
            ]
      ]
    ]

    get_chunk-read :
        (i : ℕ) (chunk : Chunk)
        → (idx.count == 0) ≡ false
        → chunk_entry idx hash ≡ some i
        → read (idx.lookup i) ≡ ok chunk
        → idx.skip_hash_check ≡ true
        → r_hash_index_get_chunk idx read hash_chunk hash ≡ ok chunk
    unfolding r_hash_index_get_chunk
    get_chunk-read i chunk some_entries f is_read skip = rw (some_entries, f, is_read, skip) refl

    -- `r_hash_index_get_chunk` returns a chunk where an entry has the hash and is in the valid range,
    -- the table is sorted and its first entry has another hash, the chunks can be read and the check
    -- of the hash is skipped.
    pub get_chunk_complete :
        (j : ℕ)
        → IsSorted idx
        → idx.count < 2 ^ 32
        → key idx 0 ≢ hash
        → IsValidEntry idx hash j
        → ((n : ℕ) → (chunk : Chunk) × (read n ≡ ok chunk))
        → idx.skip_hash_check ≡ true
        → (chunk : Chunk) × (r_hash_index_get_chunk idx read hash_chunk hash ≡ ok chunk)
    get_chunk_complete j s c z v readable skip =
        let (i, f) = chunk_entry_complete j s c z v in
        let (chunk, is_read) = readable (idx.lookup i) in
        let some_entries : (idx.count == 0) ≡ false = ground (arith, v.0) in
        (chunk, get_chunk-read i chunk some_entries f is_read skip)
