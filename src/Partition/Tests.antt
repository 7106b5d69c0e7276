-- ===== src/Partition/Tests.antt =====
-- A disk with sectors of 512 bytes, whose boot partition is the first half of the region.
use rauc.Prelude.{◌+◌, ◌*◌, ◌≤◌, ◌≡◌, refl, [], ◌∷◌, All, ok, arith}
use rauc.Partition.{
  Mbr, BootSwitchPartition, pred64, validate_region, read_mbr, is_region_free, other_half,
  get_inactive_partition,
}
use rauc.Partition.Laws.{Apart, IsApart, get_inactive_partition-Apart}

abbrev disk : Mbr
disk = record {
  boot = record { partition_start = 2; partition_size = 4 };
  others =
      record { partition_start = 100; partition_size = 10 }
      ∷ record { partition_start = 0; partition_size = 0 }
      ∷ [];
  magic_low = 85;
  magic_high = 170;
}

abbrev second_half : BootSwitchPartition
second_half = record { start = 3072; size = 2048 }

chosen : get_inactive_partition (ok 1000) (ok disk) 512 1024 4096 ≡ ok second_half
unfolding get_inactive_partition validate_region read_mbr is_region_free other_half pred64
chosen = refl

get_inactive_partition-Apart_example :
    (1024 ≤ second_half.start)
    × (second_half.start + second_half.size ≤ 1024 + 4096)
    × Apart second_half.start second_half.size (2 * 512) (4 * 512)
    × All (IsApart 512 second_half.start second_half.size) disk.others
get_inactive_partition-Apart_example =
    get_inactive_partition-Apart (ok 1000) disk 512 1024 4096 second_half (omega arith)
      (omega arith, (omega arith, tt)) (omega arith) chosen
