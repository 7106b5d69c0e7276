-- ===== src/Boot/Chooser.antt =====
-- src/bootchooser.c: the calls that go to the backend of the configured boot loader.
pub mod Laws
mod Tests
use rauc.Prelude.{
  Bool, true, false, ◌||◌, Option, none, some, List, [], ◌∷◌, Text, codes, text_eq, strcmp0_eq,
  if◌then◌else◌, Result, ok, err, ◌>>=◌, bootchooser_not_supported, aborted,
}
use rauc.Slot.{Slot}
use rauc.Boot.Tools.{Tools, BootConfig}
use rauc.Boot.Backend.{Backend}
use rauc.Boot.Uboot.{uboot_backend}
use rauc.Boot.Grub.{grub_backend}
use rauc.Boot.Barebox.{barebox_backend, barebox_get_current_bootname}
use rauc.Boot.Custom.{custom_backend, custom_get_current_bootname}
use rauc.Boot.Efi.{Devices, efi_backend, efi_get_current_bootname}

-- `supported_bootloaders`
unfoldable pub supported_bootloaders : List Text
supported_bootloaders =
    codes "barebox"
    ∷ codes "grub"
    ∷ codes "uboot"
    ∷ codes "efi"
    ∷ codes "custom"
    ∷ codes "noop"
    ∷ []

-- `g_strv_contains`
unfoldable pub strv_contains : List Text → Text → Bool
strv_contains [] s = false
strv_contains (x ∷ xs) s = text_eq s x || strv_contains xs s

-- `r_boot_is_supported_bootloader`
unfoldable pub is_supported_bootloader : Text → Bool
is_supported_bootloader bootloader = strv_contains supported_bootloaders bootloader

module _ (t : Tools) (config : BootConfig) (devices : Devices t.World) where
  open t use {World}

  -- `g_strcmp0(r_context()->config->system_bootloader, name) == 0`
  abbrev pub bootloader_is : Text → Bool
  bootloader_is name = strcmp0_eq config.system_bootloader (some name)

  -- `r_boot_get_current_bootname`; the program passes the command line of the kernel.
  unfoldable pub boot_get_current_bootname : Text → World → Result (Option Text)
  boot_get_current_bootname cmdline w =
      if bootloader_is (codes "custom")
      then (custom_get_current_bootname t config w >>= λ b. ok (some b))
      else if bootloader_is (codes "efi")
      then (efi_get_current_bootname t config devices w >>= λ b. ok (some b))
      else if bootloader_is (codes "barebox")
      then ok (barebox_get_current_bootname cmdline)
      else ok none

  -- The calls of `r_boot_get_state`.
  unfoldable pub dispatch_get_state : Slot → World → Result Bool
  dispatch_get_state slot w =
      if bootloader_is (codes "barebox")
      then (barebox_backend t config).get_state slot w
      else if bootloader_is (codes "grub")
      then (grub_backend t config).get_state slot w
      else if bootloader_is (codes "uboot")
      then (uboot_backend t config).get_state slot w
      else if bootloader_is (codes "efi")
      then (efi_backend t config devices).get_state slot w
      else if bootloader_is (codes "custom")
      then (custom_backend t config).get_state slot w
      else err bootchooser_not_supported

  -- `r_boot_get_state`: a slot without a bootname is an assertion.
  unfoldable pub boot_get_state : Slot → World → Result Bool
  boot_get_state slot w = elim slot.bootname [
    | none ↦ err aborted
    | some b ↦ dispatch_get_state slot w
  ]

  -- `r_boot_set_state`
  unfoldable pub boot_set_state : Slot → Bool → World → Result (Unit {0}) × World
  boot_set_state slot good w =
      if bootloader_is (codes "barebox")
      then (barebox_backend t config).set_state slot good w
      else if bootloader_is (codes "grub")
      then (grub_backend t config).set_state slot good w
      else if bootloader_is (codes "uboot")
      then (uboot_backend t config).set_state slot good w
      else if bootloader_is (codes "efi")
      then (efi_backend t config devices).set_state slot good w
      else if bootloader_is (codes "custom")
      then (custom_backend t config).set_state slot good w
      else if bootloader_is (codes "noop")
      then (ok tt, w)
      else (err bootchooser_not_supported, w)

  -- `r_boot_get_primary`
  unfoldable pub boot_get_primary : World → Result Slot
  boot_get_primary w =
      if bootloader_is (codes "barebox")
      then (barebox_backend t config).get_primary w
      else if bootloader_is (codes "grub")
      then (grub_backend t config).get_primary w
      else if bootloader_is (codes "uboot")
      then (uboot_backend t config).get_primary w
      else if bootloader_is (codes "efi")
      then (efi_backend t config devices).get_primary w
      else if bootloader_is (codes "custom")
      then (custom_backend t config).get_primary w
      else err bootchooser_not_supported

  -- `r_boot_set_primary`
  unfoldable pub boot_set_primary : Slot → World → Result (Unit {0}) × World
  boot_set_primary slot w =
      if bootloader_is (codes "barebox")
      then (barebox_backend t config).set_primary slot w
      else if bootloader_is (codes "grub")
      then (grub_backend t config).set_primary slot w
      else if bootloader_is (codes "uboot")
      then (uboot_backend t config).set_primary slot w
      else if bootloader_is (codes "efi")
      then (efi_backend t config devices).set_primary slot w
      else if bootloader_is (codes "custom")
      then (custom_backend t config).set_primary slot w
      else if bootloader_is (codes "noop")
      then (ok tt, w)
      else (err bootchooser_not_supported, w)

  abbrev pub boot_backend : Backend World
  boot_backend = record {
    get_state = boot_get_state;
    set_state = boot_set_state;
    get_primary = boot_get_primary;
    set_primary = boot_set_primary;
  }
