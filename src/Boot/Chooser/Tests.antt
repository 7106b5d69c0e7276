-- ===== src/Boot/Chooser/Tests.antt =====
-- The boot chooser on the environment of the U-Boot backend.
use rauc.Prelude.{
  ◌≡◌, refl, true, some, none, [], codes, text_eq, strcmp0_eq, ok, err, bootchooser_not_supported,
  aborted, arith,
}
use rauc.Samples.{boot_config, rootfs_b}
use rauc.Boot.Tools.{BootConfig}
use rauc.Boot.Uboot.{uboot_backend}
use rauc.Boot.Uboot.Contract.{IsListed, uboot_backend-IsBackend}
use rauc.Boot.Uboot.Tests.{memory, memory_laws, env, listed, primary_set}
use rauc.Boot.Efi.{Devices}
use rauc.Boot.Chooser.{
  is_supported_bootloader, strv_contains, supported_bootloaders, boot_get_state, boot_set_state,
  boot_get_primary, boot_set_primary, boot_get_current_bootname,
}
use rauc.Boot.Chooser.Laws.{uboot, name_of, backend_of, chooser-IsBackend, unsupported_calls}

abbrev no_devices : Devices memory.World
no_devices = record { realpath = λ w d. none; partition = λ w d. err aborted }

abbrev unknown : BootConfig
unknown = record boot_config { system_bootloader = some (codes "lilo") }

unsupported_calls_example :
    (boot_get_state memory unknown no_devices rootfs_b env ≡ err bootchooser_not_supported)
    × (boot_set_state memory unknown no_devices rootfs_b true env
        ≡ (err bootchooser_not_supported, env))
    × (boot_get_primary memory unknown no_devices env ≡ err bootchooser_not_supported)
    × (boot_set_primary memory unknown no_devices rootfs_b env
        ≡ (err bootchooser_not_supported, env))
    × (boot_get_current_bootname memory unknown no_devices [] env ≡ ok none)
unfolding is_supported_bootloader strv_contains supported_bootloaders text_eq
unsupported_calls_example =
    unsupported_calls memory unknown no_devices (codes "lilo") refl refl rootfs_b (codes "B") true
      [] env refl

uboot_contract :
    (backend_of memory boot_config no_devices uboot).get_state rootfs_b env
    ≡ (uboot_backend memory boot_config).get_state rootfs_b env
unfolding backend_of
uboot_contract = refl

chooser-IsBackend_example :
    boot_get_primary memory boot_config no_devices
      (boot_set_primary memory boot_config no_devices rootfs_b env).1
    ≡ ok rootfs_b
unfolding backend_of name_of boot_set_primary strcmp0_eq text_eq
chooser-IsBackend_example =
    (chooser-IsBackend memory boot_config no_devices uboot (λ w s. IsListed boot_config.slots s)
        refl (λ w s l. (l.name, l.named))
        (uboot_backend-IsBackend memory memory_laws boot_config (omega arith)
          (omega arith))).primary_read
      rootfs_b env listed primary_set
