-- ===== src/Install/Plans/Tests.antt =====
-- The plans for a bundle with two images on a small system.
use rauc.Prelude.{
  Text, Bool, true, ◌≢◌, refl, none, some, [], ◌∷◌, codes, text_eq, strcmp0_eq, All, ok,
}
use rauc.Samples.{manifest, group, plans, rootfs_image}
use rauc.Slot.{remove_fast}
use rauc.Manifest.{Image, get_update_handler, get_handler_from_type}
use rauc.Install.Select.{lookup_target}
use rauc.Install.Plans.Checks.{Writable, pre_install_checks-Writable}
use rauc.Install.Plans.{
  pre_install_checks, check_files, check_target, check_mount_status, match_image, plan_class,
  plan_classes, plan_artifacts, make_plans, get_all_manifest_slot_classes,
}
use rauc.Install.Plans.Laws.{Targets, Matched, make_plans-Targets, match_image-best}

make_plans-Targets_example : All (Targets group (λ n. none)) plans × (plans ≢ [])
unfolding make_plans plan_classes plan_class plan_artifacts get_all_manifest_slot_classes
    match_image lookup_target get_update_handler get_handler_from_type remove_fast text_eq
    strcmp0_eq
make_plans-Targets_example = make_plans-Targets group (λ n. none) none (ok tt) manifest plans refl

abbrev for_board : Image
for_board = record rootfs_image { variant = some (codes "board") }

match_image-best_example :
    Matched (some (codes "board")) (codes "rootfs") (rootfs_image ∷ for_board ∷ []) for_board
unfolding match_image text_eq strcmp0_eq
match_image-best_example =
    match_image-best (some (codes "board")) (codes "rootfs") (rootfs_image ∷ for_board ∷ [])
      for_board refl

abbrev all_there : Text → Bool
all_there f = true

pre_install_checks-Writable_example : All (Writable all_there) plans
unfolding pre_install_checks check_files check_target check_mount_status
pre_install_checks-Writable_example = pre_install_checks-Writable all_there plans refl
