-- ===== src/Partition.antt =====
-- src/mbr.c: the choice of the inactive boot partition. Addresses are numbers of 64 bits.
pub mod Laws
mod Tests
use rauc.Prelude.{
  ℕ, ◌+◌, ◌-◌, ◌*◌, ◌/◌, ◌%◌, ◌^◌, Bool, true, false, not, ◌&&◌, ◌||◌, List, [], ◌∷◌, ltb, leb,
  ◌==◌, if◌then◌else◌, Result, ok, err, ◌>>=◌, ◌>>◌, update_failed,
}

-- `struct mbr_tbl_entry`, with the numbers of 32 bits that the choice reads.
pub record MbrTblEntry : Type 0 where
  pub partition_start : ℕ
  pub partition_size : ℕ

-- `struct mbr`; the partition table is its entry 0, the boot partition, and the others.
pub record Mbr : Type 0 where
  pub boot : MbrTblEntry
  pub others : List MbrTblEntry
  pub magic_low : ℕ
  pub magic_high : ℕ

-- `struct boot_switch_partition`
pub record BootSwitchPartition : Type 0 where
  pub start : ℕ
  pub size : ℕ

-- A sum of 64 bits.
abbrev pub add64 : ℕ → ℕ → ℕ
add64 a b = (a + b) % 2 ^ 64

-- One less, in 64 bits.
unfoldable pub pred64 : ℕ → ℕ
pred64 a = add64 a (2 ^ 64 - 1)

abbrev pub refuse_if : Bool → Result (Unit {0})
refuse_if c = if c then err update_failed else ok tt

-- `validate_region`, with the result of `get_number_of_sectors`.
unfoldable pub validate_region : Result ℕ → ℕ → ℕ → ℕ → Result (Unit {0})
validate_region number_of_sectors sector_size start size = do
  refuse_if (ltb start 512 || size == 0)
  refuse_if (not (start % sector_size == 0))
  refuse_if (not (size % (2 * sector_size) == 0))
  sectors ← number_of_sectors
  refuse_if (leb (sectors * sector_size) (add64 start size))

-- `read_mbr`, on what was read.
unfoldable pub read_mbr : Result Mbr → Result Mbr
read_mbr read = do
  mbr ← read
  refuse_if (not (mbr.magic_low == 85) || not (mbr.magic_high == 170))
  ok mbr

-- The loop of `is_region_free` over the entries after the first one.
unfoldable pub is_region_free : ℕ → ℕ → ℕ → List MbrTblEntry → Result (Unit {0})
is_region_free sector_size start size [] = ok tt
is_region_free sector_size start size (p ∷ ps) =
    let rest = is_region_free sector_size start size ps in
    let p_start = p.partition_start * sector_size in
    let p_end = pred64 (add64 (p.partition_size * sector_size) p_start) in
    if p.partition_size == 0
    then rest
    else if leb p_start start && leb start p_end
    then err update_failed
    else if leb start p_start && leb p_start (pred64 (add64 start size))
    then err update_failed
    else rest

-- The half of the region that the boot partition does not start.
unfoldable pub other_half : ℕ → ℕ → ℕ → MbrTblEntry → Result BootSwitchPartition
other_half sector_size start size boot =
    if boot.partition_start == 0
    then err update_failed
    else if start / sector_size == boot.partition_start
    then ok (record { start = add64 start (size / 2); size = size / 2 })
    else if add64 start (size / 2) / sector_size == boot.partition_start
    then ok (record { start = start; size = size / 2 })
    else err update_failed

-- `r_mbr_switch_get_inactive_partition`, with what the device says.
unfoldable pub get_inactive_partition :
    Result ℕ → Result Mbr → ℕ → ℕ → ℕ → Result BootSwitchPartition
get_inactive_partition number_of_sectors read sector_size start size = do
  validate_region number_of_sectors sector_size start size
  mbr ← read_mbr read
  is_region_free sector_size start size mbr.others
  other_half sector_size start size mbr.boot
