-- ===== src/HashIndex/Search.antt =====
-- The binary search finds the hash where an entry has it.
use rauc.Prelude.{
  ℕ, zero, suc, ◌+◌, ◌-◌, ◌%◌, ◌^◌, ◌<◌, ◌≤◌, ◌≡◌, refl, sym, inl, inr, true, false, Bool-cases,
  Option, some, ltb, leb, lt→ltb, ◌==◌, arith,
}
use mathlib.Core.Path.{subst}
use native.Mathlib.Nat.{mod-eq_of_lt}
use rauc.HashIndex.{HashIndex, key, middle_of, search}

-- The lookup table is sorted by hash, and by chunk number where hashes are the same.
pub record IsSorted (idx : HashIndex) : Type 0 where
  pub by_hash : (i j : ℕ) → i ≤ j → j < idx.count → key idx i ≤ key idx j
  pub by_chunk :
      (i j : ℕ) → i ≤ j → j < idx.count → key idx i ≡ key idx j → idx.lookup i ≤ idx.lookup j

-- A search that returns an entry.
abbrev pub Found : Option ℕ → Type 0
Found o = (m : ℕ) × (o ≡ some m)

leb→le : (a b : ℕ) → leb a b ≡ true → a ≤ b
leb→le a b h = ground arith

le→leb : (a b : ℕ) → a ≤ b → leb a b ≡ true
le→leb a b h = ground arith

module _ (idx : HashIndex) (hash : ℕ) where
  middle_bound :
      (left right : ℕ)
      → left ≤ right
      → (left ≤ middle_of left right) × (middle_of left right ≤ right)
  middle_bound left right h = (omega arith, omega arith)

  -- What the search returns has the hash.
  pub search-key :
      (fuel left right m : ℕ)
      → right < idx.count
      → search idx hash fuel left right ≡ some m
      → (key idx m ≡ hash) × (m < idx.count)
  unfolding search
  search-key zero left right m b h = cc
  search-key (suc fuel) left right m b h = elim (Bool-cases (leb left right)) [
    | inl in_range ↦
        let (low, high) = middle_bound left right (leb→le left right in_range) in
        ground (
          arith,
          search-key fuel ((middle_of left right + 1) % 2 ^ 32) right m b,
          search-key fuel left (middle_of left right - 1) m (omega arith),
        )
    | inr out ↦ ground arith
  ]

  greater :
      (middle i : ℕ)
      → IsSorted idx
      → middle < idx.count
      → key idx i ≡ hash
      → ltb (key idx middle) hash ≡ true
      → middle + 1 ≤ i
  greater middle i s b k h = ground (arith, s.by_hash i middle)

  lesser :
      (middle i : ℕ)
      → IsSorted idx
      → i < idx.count
      → key idx i ≡ hash
      → (key idx middle == hash) ≡ false
      → ltb (key idx middle) hash ≡ false
      → i < middle
  lesser middle i s b k h g = ground (arith, s.by_hash middle i)

  -- The search finds an entry where one between its bounds has the hash: as many steps as there are
  -- entries are enough.
  pub search_complete :
      (fuel left right i : ℕ)
      → IsSorted idx
      → idx.count < 2 ^ 32
      → right < idx.count
      → right < left + fuel
      → left ≤ i
      → i ≤ right
      → key idx i ≡ hash
      → Found (search idx hash fuel left right)
  unfolding search
  search_complete zero left right i s c b f l r k = absurd (omega arith)
  search_complete (suc fuel) left right i s c b f l r k =
      let middle = middle_of left right in
      let (low, high) = middle_bound left right (omega arith) in
      let in_range : leb left right ≡ true = le→leb left right (omega arith) in
      elim (Bool-cases (key idx middle == hash)) [
        | inl same ↦ (middle, rw (in_range, same) refl)
        | inr other ↦ elim (Bool-cases (ltb (key idx middle) hash)) [
          | inl less ↦
              let next : (middle + 1) % 2 ^ 32 ≡ middle + 1 = mod-eq_of_lt (omega arith) in
              let after : middle + 1 ≤ i = greater middle i s (omega arith) k less in
              rw (in_range, other, less)
                (subst (λ x. Found (search idx hash fuel x right)) (sym next)
                  (search_complete fuel (middle + 1) right i s c b (omega arith) after r k))
          | inr more ↦
              let before : i < middle = lesser middle i s (omega arith) k other more in
              let positive : ltb 0 middle ≡ true = lt→ltb 0 middle (omega arith) in
              rw (in_range, other, more, positive)
                (search_complete fuel left (middle - 1) i s c (omega arith) (omega arith) l
                  (omega arith) k)
        ]
      ]
