-- ===== src/Samples.antt =====
-- A small system for the tests: two root file systems A and B, each with an application slot.
use rauc.Manifest.{Image, Manifest, img_to_fs_handler}
use rauc.Machine.{Io, Run, Bundle, SystemConfig}
use rauc.Install.Plans.{Plan, to_slot}
use rauc.Install.Slots.{InstallArgs}
use rauc.Prelude.{ℕ, suc, true, ok, List, false, Option, none, some, [], ◌∷◌, Text, codes}
use rauc.Slot.{Slot, Slots, SlotStatus, SlotState, st_active, st_inactive, st_booted}
use rauc.Boot.Tools.{BootConfig}

abbrev pub empty_status : SlotStatus
empty_status = record {
  bundle_compatible = none;
  bundle_version = none;
  bundle_description = none;
  bundle_build = none;
  bundle_hash = none;
  status = none;
  checksum = record { digest = none; size = 0 };
  installed_txn = none;
  installed_timestamp = none;
  installed_count = 0;
  activated_timestamp = none;
  activated_count = 0;
}

abbrev pub make_slot : Text → Text → Option Text → Option Text → SlotState → Slot
make_slot name class bootname parent state = record {
  name = name;
  sclass = class;
  device = name;
  slot_type = codes "ext4";
  bootname = bootname;
  allow_mounted = false;
  readonly = false;
  install_same = false;
  state = state;
  boot_good = false;
  parent = parent;
  mount_point = none;
  ext_mount_point = none;
  efi_loader = none;
  efi_cmdline = none;
}

abbrev pub rootfs_a : Slot
rootfs_a = make_slot (codes "rootfs.0") (codes "rootfs") (some (codes "A")) none st_booted

abbrev pub rootfs_b : Slot
rootfs_b = make_slot (codes "rootfs.1") (codes "rootfs") (some (codes "B")) none st_inactive

abbrev pub app_a : Slot
app_a = make_slot (codes "app.0") (codes "app") none (some (codes "rootfs.0")) st_active

abbrev pub app_b : Slot
app_b = make_slot (codes "app.1") (codes "app") none (some (codes "rootfs.1")) st_inactive

abbrev pub system : Slots
system = rootfs_a ∷ app_a ∷ rootfs_b ∷ app_b ∷ []

abbrev pub boot_config : BootConfig
boot_config = record {
  slots = system;
  system_bootloader = some (codes "uboot");
  boot_default_attempts = 0;
  boot_attempts_primary = 0;
  grubenv_path = some (codes "/grubenv");
  system_bb_statename = none;
  system_bb_dtbpath = none;
  custom_bootloader_backend = none;
  efi_use_bootnext = false;
}

abbrev pub rootfs_image : Image
rootfs_image = record {
  slotclass = codes "rootfs";
  artifact = none;
  variant = none;
  checksum = record { digest = some (codes "d1"); size = 4096 };
  filename = some (codes "rootfs.ext4");
  image_type = some (codes "ext4");
  hooks = record { pre_install = false; install = false; post_install = false };
  converted = [];
}

abbrev app_image : Image
app_image = record rootfs_image { slotclass = codes "app"; filename = some (codes "app.ext4") }

abbrev pub manifest : Manifest
manifest = record {
  update_compatible = some (codes "board");
  update_version = some (codes "2");
  update_description = none;
  update_build = none;
  hash = some (codes "h");
  handler_name = none;
  hook_name = none;
  install_check = false;
  images = rootfs_image ∷ app_image ∷ [];
}

abbrev pub args : InstallArgs
args = record {
  name = codes "update.raucb";
  transaction = some (codes "t");
  ignore_compatible = false;
  ignore_version_limit = false;
  require_manifest_hash = none;
}

abbrev pub system_config : SystemConfig
system_config = record {
  slots = system;
  system_variant = none;
  system_compatible = some (codes "board");
  system_min_bundle_version = none;
  per_slot = false;
  activate_installed = true;
  prevent_late_fallback = true;
  artifact_repos = λ n. none;
  preinstall_handler = none;
  postinstall_handler = none;
}

abbrev pub group : List (Text × Slot)
group = (codes "rootfs", rootfs_b) ∷ (codes "app", app_b) ∷ []

abbrev pub plans : List Plan
plans =
    record { image = rootfs_image; target = to_slot rootfs_b img_to_fs_handler }
    ∷ record { image = app_image; target = to_slot app_b img_to_fs_handler }
    ∷ []

abbrev bundle : Bundle
bundle = record { manifest = some manifest; is_crypt = false; was_encrypted = false }

-- A system in which every call succeeds and every file is there. Its world counts the calls.
abbrev pub working : Io
working = record {
  World = ℕ;
  now = λ w. w;
  uuid = λ w. (codes "u", suc w);
  exists = λ w f. true;
  load_status = λ s st w. ((st, false), w);
  save_status = λ s st w. (ok tt, suc w);
  move_data = λ s d w. (ok tt, w);
  boot_set_state = λ s good w. (ok tt, suc w);
  boot_set_primary = λ s w. (ok tt, suc w);
  slot_handler = λ h i s hook w. (ok tt, suc w);
  artifact_install = λ m i r w. (ok tt, suc w);
  artifacts_init = λ w. (ok tt, w);
  artifacts_prune = λ w. (ok tt, w);
  external_mount_points = λ w. (ok tt, w);
  check_bundle = λ name w. (ok bundle, suc w);
  mount_bundle = λ b w. (ok manifest, suc w);
  umount_bundle = suc;
  bundle_hook = λ m w. (ok tt, w);
  system_handler = λ h w. (ok tt, w);
  custom_handler = λ m w. (ok tt, w);
}

abbrev pub start : Run ℕ
start = record {
  world = 100;
  statuses = λ n. record empty_status { status = some (codes "ok"); installed_timestamp = some 5 };
  trace = [];
}
