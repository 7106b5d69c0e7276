-- ===== src/Partition/Laws.antt =====
-- The inactive boot partition overlaps no partition of the table.
use rauc.Prelude.{
  ℕ, ◌+◌, ◌-◌, ◌*◌, ◌/◌, ◌%◌, ◌^◌, ◌<◌, ◌≤◌, ◌≡◌, ◌⊎◌, inl, inr, refl, sym, ap, ◌∙◌, Bool, true,
  false, not, ◌&&◌, ◌||◌, Bool-cases, List, [], ◌∷◌, All, All-mono, ltb, leb, ◌==◌, Result, ok,
  ◌>>◌, >>-eq-ok, >>=-eq-ok, ok_injective, arith,
}
use mathlib.Core.Path.{subst}
use native.Mathlib.Nat.{mod-eq_of_lt, mod-add-div, mod-add-div', mul_assoc, add-mul-mod_self_left}
use rauc.Partition.{
  MbrTblEntry, Mbr, BootSwitchPartition, add64, pred64, refuse_if, validate_region, read_mbr,
  is_region_free, other_half, get_inactive_partition,
}

-- Two ranges of bytes have no byte in common.
abbrev pub Apart : ℕ → ℕ → ℕ → ℕ → Type 0
Apart a n b m = (a + n ≤ b) ⊎ (b + m ≤ a)

-- The bytes of a partition have addresses of 64 bits.
abbrev pub FitsDisk : ℕ → MbrTblEntry → Type 0
FitsDisk sector_size p = p.partition_size * sector_size + p.partition_start * sector_size < 2 ^ 64

-- A partition is empty or apart from a range.
abbrev pub IsApart : ℕ → ℕ → ℕ → MbrTblEntry → Type 0
IsApart sector_size a n p =
    (p.partition_size ≡ 0)
    ⊎ Apart a n (p.partition_start * sector_size) (p.partition_size * sector_size)

not_refused : (c : Bool) → refuse_if c ≡ ok tt → c ≡ false
not_refused true h = cc
not_refused false h = refl

pred64_lem : (a : ℕ) → 1 ≤ a → a < 2 ^ 64 → pred64 a ≡ a - 1
unfolding pred64
pred64_lem a pos h = omega arith

-- Two ranges that do not begin in each other are apart.
begins_outside :
    (a n b m : ℕ)
    → 1 ≤ n
    → a + n < 2 ^ 64
    → m + b < 2 ^ 64
    → (leb b a && leb a (pred64 (m + b))) ≡ false
    → (leb a b && leb b (pred64 (a + n))) ≡ false
    → Apart a n b m
begins_outside a n b m pos h k x y = elim (Bool-cases (m + b == 0)) [
  | inl z ↦ inr (ground arith)
  | inr z ↦
      let p = pred64_lem (m + b) (ground arith) k in
      let q = pred64_lem (a + n) (omega arith) h in ground arith
]

module _ (sector_size start size : ℕ) (fits : start + size < 2 ^ 64) (pos : 1 ≤ size) where
  is_region_free-IsApart :
      (ps : List MbrTblEntry)
      → All (FitsDisk sector_size) ps
      → is_region_free sector_size start size ps ≡ ok tt
      → All (IsApart sector_size start size) ps
  unfolding is_region_free
  is_region_free-IsApart [] a h = tt
  is_region_free-IsApart (p ∷ ps) (a, more) h = elim (Bool-cases (p.partition_size == 0)) [
    | inl e ↦ (inl (ground arith), is_region_free-IsApart ps more (rw e at h))
    | inr e ↦
        let begins = p.partition_start * sector_size in
        let length = p.partition_size * sector_size in
        let sum : add64 length begins ≡ length + begins = mod-eq_of_lt a in
        let whole : add64 start size ≡ start + size = mod-eq_of_lt fits in
        let h' = rw (e, sum, whole) at h in
        elim (Bool-cases (leb begins start && leb start (pred64 (length + begins)))) [
          | inl x ↦ absurd (let z = rw x at h' in cc)
          | inr x ↦ elim (Bool-cases (leb start begins && leb begins (pred64 (start + size)))) [
            | inl y ↦ absurd (let z = rw (x, y) at h' in cc)
            | inr y ↦ (
              inr (begins_outside start size begins length pos fits a x y),
              is_region_free-IsApart ps more (rw (x, y) at h'),
            )
          ]
        ]
  ]

within :
    (a n c k : ℕ) (ss : ℕ) (p : MbrTblEntry)
    → a ≤ c
    → c + k ≤ a + n
    → IsApart ss a n p
    → IsApart ss c k p
within a n c k ss p l u (inl e) = inl e
within a n c k ss p l u (inr (inl e)) = inr (inl (omega arith))
within a n c k ss p l u (inr (inr e)) = inr (inr (omega arith))

-- An address that is a multiple of the sector size is that of its sector.
sector_start : (a ss b : ℕ) → a % ss ≡ 0 → a / ss ≡ b → a ≡ b * ss
sector_start a ss b h e =
    let z : a % ss + b * ss ≡ a = ap (λ x. a % ss + x * ss) (sym e) ∙ mod-add-div' a ss in
    omega (arith, z, h)

-- Half of a region of whole pairs of sectors is whole sectors.
half_sectors : (size ss : ℕ) → size % (2 * ss) ≡ 0 → size / 2 ≡ ss * (size / (2 * ss))
half_sectors size ss h =
    let q = size / (2 * ss) in
    let z = mod-add-div size (2 * ss) in let two = mul_assoc 2 ss q in omega (arith, z, two, h)

middle_aligned :
    (start size ss : ℕ) → start % ss ≡ 0 → size % (2 * ss) ≡ 0 → (start + size / 2) % ss ≡ 0
middle_aligned start size ss h k =
    ap (λ x. (start + x) % ss) (half_sectors size ss k)
    ∙ add-mul-mod_self_left start ss (size / (2 * ss))
    ∙ h

abbrev Chosen : ℕ → ℕ → ℕ → MbrTblEntry → BootSwitchPartition → Type 0
Chosen ss start size boot p =
    (start ≤ p.start)
    × (p.start + p.size ≤ start + size)
    × Apart p.start p.size (boot.partition_start * ss) (boot.partition_size * ss)

-- What `validate_region` has checked.
valid_region :
    (number_of_sectors : Result ℕ) (sector_size start size : ℕ)
    → validate_region number_of_sectors sector_size start size ≡ ok tt
    → (start % sector_size ≡ 0) × (size % (2 * sector_size) ≡ 0) × (1 ≤ size)
unfolding validate_region
valid_region number_of_sectors ss start size h =
    let (c1, h1) = >>-eq-ok (refuse_if (ltb start 512 || size == 0)) _ h in
    let (c2, h2) = >>-eq-ok (refuse_if (not (start % ss == 0))) _ h1 in
    let (c3, h3) = >>-eq-ok (refuse_if (not (size % (2 * ss) == 0))) _ h2 in
    let n1 = not_refused _ c1 in
    let n2 = not_refused _ c2 in
    let n3 = not_refused _ c3 in (ground arith, ground arith, ground arith)

-- The half that is chosen lies in the region, apart from the boot partition.
other_half-Apart :
    (ss start size : ℕ) (boot : MbrTblEntry) (p : BootSwitchPartition)
    → start + size < 2 ^ 64
    → start % ss ≡ 0
    → size % (2 * ss) ≡ 0
    → boot.partition_size * ss ≤ size / 2
    → other_half ss start size boot ≡ ok p
    → (start ≤ p.start)
      × (p.start + p.size ≤ start + size)
      × Apart p.start p.size (boot.partition_start * ss) (boot.partition_size * ss)
unfolding other_half
other_half-Apart ss start size boot p fits a b small h =
    let middle : add64 start (size / 2) ≡ start + size / 2 = mod-eq_of_lt (omega arith) in
    let h0 = rw middle at h in
    elim (Bool-cases (boot.partition_start == 0)) [
      | inl z ↦ absurd (let bad = rw z at h0 in cc)
      | inr z ↦ elim (Bool-cases (start / ss == boot.partition_start)) [
        | inl first ↦
            let begins = sector_start start ss boot.partition_start a (ground arith) in
            subst (Chosen ss start size boot) (ok_injective (rw (z, first) at h0))
              (omega arith, omega arith, inr (omega (arith, begins, small)))
        | inr not_first ↦ elim (Bool-cases ((start + size / 2) / ss == boot.partition_start)) [
          | inr none_of ↦ absurd (let bad = rw (z, not_first, none_of) at h0 in cc)
          | inl second ↦
              let begins =
                sector_start (start + size / 2) ss boot.partition_start
                  (middle_aligned start size ss a b) (ground arith) in
              subst (Chosen ss start size boot) (ok_injective (rw (z, not_first, second) at h0))
                (omega arith, omega arith, inl (omega (arith, begins)))
        ]
      ]
    ]

-- The partition that `r_mbr_switch_get_inactive_partition` chooses lies in the region and overlaps
-- neither the boot partition nor another partition of the table, for addresses of 64 bits and a boot
-- partition that is no larger than half of the region.
pub get_inactive_partition-Apart :
    (number_of_sectors : Result ℕ) (mbr : Mbr) (ss start size : ℕ) (p : BootSwitchPartition)
    → start + size < 2 ^ 64
    → All (FitsDisk ss) mbr.others
    → mbr.boot.partition_size * ss ≤ size / 2
    → get_inactive_partition number_of_sectors (ok mbr) ss start size ≡ ok p
    → (start ≤ p.start)
      × (p.start + p.size ≤ start + size)
      × Apart p.start p.size (mbr.boot.partition_start * ss) (mbr.boot.partition_size * ss)
      × All (IsApart ss p.start p.size) mbr.others
unfolding get_inactive_partition read_mbr
get_inactive_partition-Apart number_of_sectors mbr ss start size p fits disk small h =
    let (region, h1) = >>-eq-ok (validate_region number_of_sectors ss start size) _ h in
    let (a, b, pos) = valid_region number_of_sectors ss start size region in
    let (mbr', is, h2) = >>=-eq-ok (read_mbr (ok mbr)) _ h1 in
    let (magic, read) =
      >>-eq-ok (refuse_if (not (mbr.magic_low == 85) || not (mbr.magic_high == 170))) _ is in
    let same : mbr' ≡ mbr = sym (ok_injective read) in
    let h3 =
      subst (λ m. (is_region_free ss start size m.others >> other_half ss start size m.boot) ≡ ok p)
        same h2 in
    let (free, chosen) = >>-eq-ok (is_region_free ss start size mbr.others) _ h3 in
    let (low, high, apart) = other_half-Apart ss start size mbr.boot p fits a b small chosen in
    (
      low,
      high,
      apart,
      All-mono (IsApart ss start size) (IsApart ss p.start p.size) mbr.others
          (λ x z. within start size p.start p.size ss x low high z)
          (is_region_free-IsApart ss start size fits pos mbr.others disk free),
    )
