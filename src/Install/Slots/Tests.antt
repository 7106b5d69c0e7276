-- ===== src/Install/Slots/Tests.antt =====
-- One slot plan on a small system.
use rauc.Prelude.{true, none}
use rauc.Samples.{system_config, manifest, args, working, start, rootfs_b, rootfs_image}
use rauc.Manifest.{img_to_fs_handler}
use rauc.Machine.Hoare.{Holds}
use rauc.Install.Slots.{handle_slot_install_plan}
use rauc.Install.Slots.Outcome.{writes, Installed, Failed, handle_slot_install_plan-Recorded}

handle_slot_install_plan-Recorded_example :
    Holds
      (λ u. Installed rootfs_b rootfs_image args (start.statuses rootfs_b.name) 0 true)
      (Failed rootfs_b rootfs_image args (start.statuses rootfs_b.name) 0)
      (handle_slot_install_plan working system_config manifest args rootfs_b rootfs_image
        img_to_fs_handler none start)
unfolding writes
handle_slot_install_plan-Recorded_example =
    handle_slot_install_plan-Recorded working system_config manifest args rootfs_b rootfs_image
      img_to_fs_handler none start
