-- ===== src/Install/Default/Tests.antt =====
-- The default handler on a small system.
use rauc.Prelude.{◌≡◌, ◌⊎◌, refl, true, false, some, [], text_eq, strcmp0_eq, ok}
use rauc.Samples.{system_config, manifest, args, group, plans, working, start, rootfs_b}
use rauc.Slot.{remove_fast}
use rauc.Manifest.{get_update_handler, get_handler_from_type}
use rauc.Machine.Hoare.{Holds}
use rauc.Install.Select.{lookup_target}
use rauc.Install.Plans.{
  match_image, plan_class, plan_classes, plan_artifacts, make_plans, get_all_manifest_slot_classes,
  get_boot_mark_slot, boot_mark_loop,
}
use rauc.Install.Default.{make_plans_step, handle_plans, default_handler}
use rauc.Install.Default.Order.{
  WritesOff, bootable, default_handler-WritesOff, default_handler-bootable,
}
use rauc.Install.Default.Pending.{WritesPending, handle_plans-WritesPending}

planned : (make_plans_step working system_config manifest args group start).0 ≡ ok plans
unfolding make_plans_step make_plans plan_classes plan_class plan_artifacts
    get_all_manifest_slot_classes match_image lookup_target get_update_handler get_handler_from_type
    remove_fast text_eq strcmp0_eq
planned = refl

to_mark : get_boot_mark_slot plans ≡ some (some rootfs_b)
unfolding get_boot_mark_slot boot_mark_loop
to_mark = refl

default_handler-WritesOff_example :
    WritesOff rootfs_b.name
      (default_handler working system_config manifest args group start).1.trace
default_handler-WritesOff_example =
    default_handler-WritesOff working system_config manifest args group plans rootfs_b start planned
      to_mark tt

default_handler-bootable_example :
    Holds
      (λ u s. bootable rootfs_b.name s.trace ≡ true)
      (λ s. (s.trace ≡ []) ⊎ (bootable rootfs_b.name s.trace ≡ false))
      (default_handler working system_config manifest args group start)
default_handler-bootable_example =
    default_handler-bootable working system_config manifest args group plans rootfs_b start planned
      to_mark

handle_plans-WritesPending_example :
    WritesPending (handle_plans working system_config manifest args plans start).1.trace
handle_plans-WritesPending_example =
    handle_plans-WritesPending working system_config manifest args plans start refl tt
