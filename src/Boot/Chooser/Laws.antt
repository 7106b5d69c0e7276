-- ===== src/Boot/Chooser/Laws.antt =====
-- The boot chooser keeps the contract of the configured backend.
use rauc.Prelude.{
  ◌≡◌, refl, sym, ap, ◌∙◌, Bool, false, none, some, Text, codes, text_eq, strcmp0_eq, Result, ok,
  err, bootchooser_not_supported, aborted, arith,
}
use rauc.Slot.{Slot}
use rauc.Boot.Tools.{Tools, BootConfig}
use rauc.Boot.Backend.{Backend, IsBackend}
use rauc.Boot.Uboot.{uboot_backend}
use rauc.Boot.Grub.{grub_backend}
use rauc.Boot.Barebox.{barebox_backend}
use rauc.Boot.Custom.{custom_backend}
use rauc.Boot.Efi.{Devices, efi_backend}
use rauc.Boot.Chooser.{
  strv_contains, supported_bootloaders, is_supported_bootloader, dispatch_get_state,
  boot_get_current_bootname, boot_get_state, boot_set_state, boot_get_primary, boot_set_primary,
  boot_backend,
}

-- The boot loaders that have a backend.
pub data Kind : Type 0 where
  barebox grub uboot efi custom : Kind

unfoldable pub name_of : Kind → Text
name_of barebox = codes "barebox"
name_of grub = codes "grub"
name_of uboot = codes "uboot"
name_of efi = codes "efi"
name_of custom = codes "custom"

-- A name that is refused is none of the names.
refused_names :
    (n : Text)
    → is_supported_bootloader n ≡ false
    → (text_eq n (codes "barebox") ≡ false)
      × (text_eq n (codes "grub") ≡ false)
      × (text_eq n (codes "uboot") ≡ false)
      × (text_eq n (codes "efi") ≡ false)
      × (text_eq n (codes "custom") ≡ false)
      × (text_eq n (codes "noop") ≡ false)
unfolding is_supported_bootloader strv_contains supported_bootloaders
refused_names n h = ground arith

module _ (t : Tools) (config : BootConfig) (devices : Devices t.World) where
  open t use {World}

  unfoldable pub backend_of : Kind → Backend World
  backend_of barebox = barebox_backend t config
  backend_of grub = grub_backend t config
  backend_of uboot = uboot_backend t config
  backend_of efi = efi_backend t config devices
  backend_of custom = custom_backend t config

  -- With the name of a boot loader that has a backend, every call is the one of the backend.
  get_state-backend :
      (k : Kind)
      → config.system_bootloader ≡ some (name_of k)
      → (s : Slot) (w : World)
      → dispatch_get_state t config devices s w ≡ (backend_of k).get_state s w
  unfolding dispatch_get_state backend_of name_of strcmp0_eq text_eq
  get_state-backend barebox e s w = rw e refl
  get_state-backend grub e s w = rw e refl
  get_state-backend uboot e s w = rw e refl
  get_state-backend efi e s w = rw e refl
  get_state-backend custom e s w = rw e refl

  set_state-backend :
      (k : Kind)
      → config.system_bootloader ≡ some (name_of k)
      → (s : Slot) (good : Bool) (w : World)
      → boot_set_state t config devices s good w ≡ (backend_of k).set_state s good w
  unfolding boot_set_state backend_of name_of strcmp0_eq text_eq
  set_state-backend barebox e s good w = rw e refl
  set_state-backend grub e s good w = rw e refl
  set_state-backend uboot e s good w = rw e refl
  set_state-backend efi e s good w = rw e refl
  set_state-backend custom e s good w = rw e refl

  get_primary-backend :
      (k : Kind)
      → config.system_bootloader ≡ some (name_of k)
      → (w : World) → boot_get_primary t config devices w ≡ (backend_of k).get_primary w
  unfolding boot_get_primary backend_of name_of strcmp0_eq text_eq
  get_primary-backend barebox e w = rw e refl
  get_primary-backend grub e w = rw e refl
  get_primary-backend uboot e w = rw e refl
  get_primary-backend efi e w = rw e refl
  get_primary-backend custom e w = rw e refl

  set_primary-backend :
      (k : Kind)
      → config.system_bootloader ≡ some (name_of k)
      → (s : Slot) (w : World)
      → boot_set_primary t config devices s w ≡ (backend_of k).set_primary s w
  unfolding boot_set_primary backend_of name_of strcmp0_eq text_eq
  set_primary-backend barebox e s w = rw e refl
  set_primary-backend grub e s w = rw e refl
  set_primary-backend uboot e s w = rw e refl
  set_primary-backend efi e s w = rw e refl
  set_primary-backend custom e s w = rw e refl

  boot_get_state-dispatch :
      (s : Slot) (b : Text) (w : World)
      → s.bootname ≡ some b
      → boot_get_state t config devices s w ≡ dispatch_get_state t config devices s w
  unfolding boot_get_state
  boot_get_state-dispatch s b w named =
      ap
        (λ n. elim n as (λ x. Result Bool) [
          | none ↦ err aborted
          | some c ↦ dispatch_get_state t config devices s w
        ])
        named

  boot_get_state-backend :
      (k : Kind)
      → config.system_bootloader ≡ some (name_of k)
      → (s : Slot) (b : Text) (w : World) → s.bootname ≡ some b
      → boot_get_state t config devices s w ≡ (backend_of k).get_state s w
  boot_get_state-backend k e s b w named =
      boot_get_state-dispatch s b w named ∙ get_state-backend k e s w

  -- The boot chooser keeps the contract of a backend for the slots with a bootname that the backend
  -- of the configured boot loader keeps it for.
  pub chooser-IsBackend :
      (k : Kind) (Fits : World → Slot → Type 0)
      → config.system_bootloader ≡ some (name_of k)
      → ((w : World) (s : Slot) → Fits w s → (b : Text) × (s.bootname ≡ some b))
      → IsBackend (backend_of k) Fits
      → IsBackend (boot_backend t config devices) Fits
  chooser-IsBackend k Fits e named contract = record {
    primary_read = λ s w f h.
        let (done, after) = primary_done s w h in
        get_primary-backend k e (boot_set_primary t config devices s w).1
        ∙ ap (backend_of k).get_primary after
        ∙ contract.primary_read s w f done;
    primary_good = λ s w f h.
        let (done, after) = primary_done s w h in
        let (b, is) = named w s f in
        boot_get_state-backend k e s b (boot_set_primary t config devices s w).1 is
        ∙ ap ((backend_of k).get_state s) after
        ∙ contract.primary_good s w f done;
    bad_read = λ s w f h.
        let (b, is) = named w s f in
        let after : (boot_set_state t config devices s false w).1
            ≡ ((backend_of k).set_state s false w).1 =
          ap (λ x. x.1) (set_state-backend k e s false w) in
        let (state, primary) =
          contract.bad_read s w f (sym (ap (λ x. x.0) (set_state-backend k e s false w)) ∙ h) in
        (
          λ z. state (
              sym (
                boot_get_state-backend k e s b (boot_set_state t config devices s false w).1 is
                ∙ ap ((backend_of k).get_state s) after)
              ∙ z),
          λ z. primary (
              sym (
                get_primary-backend k e (boot_set_state t config devices s false w).1
                ∙ ap (backend_of k).get_primary after)
              ∙ z),
        );
  }
    where
      primary_done :
          (s : Slot) (w : World)
          → (boot_set_primary t config devices s w).0 ≡ ok tt
          → (((backend_of k).set_primary s w).0 ≡ ok tt)
            × ((boot_set_primary t config devices s w).1 ≡ ((backend_of k).set_primary s w).1)
      primary_done s w h = (
        sym (ap (λ x. x.0) (set_primary-backend k e s w)) ∙ h,
        ap (λ x. x.1) (set_primary-backend k e s w),
      )

  -- With a name that `r_boot_is_supported_bootloader` refuses, the state and the primary slot can
  -- neither be read nor set: the four calls fail for a slot with a bootname, and change nothing.
  -- The current bootname is none, without an error.
  pub unsupported_calls :
      (n : Text)
      → config.system_bootloader ≡ some n
      → is_supported_bootloader n ≡ false
      → (s : Slot) (b : Text) (good : Bool) (cmdline : Text) (w : World) → s.bootname ≡ some b
      → (boot_get_state t config devices s w ≡ err bootchooser_not_supported)
        × (boot_set_state t config devices s good w ≡ (err bootchooser_not_supported, w))
        × (boot_get_primary t config devices w ≡ err bootchooser_not_supported)
        × (boot_set_primary t config devices s w ≡ (err bootchooser_not_supported, w))
        × (boot_get_current_bootname t config devices cmdline w ≡ ok none)
  unfolding dispatch_get_state boot_set_state boot_get_primary boot_set_primary
      boot_get_current_bootname strcmp0_eq
  unsupported_calls n e refused s b good cmdline w named =
      let (barebox_no, grub_no, uboot_no, efi_no, custom_no, noop_no) = refused_names n refused in
      (
        boot_get_state-dispatch s b w named
            ∙ rw (e, barebox_no, grub_no, uboot_no, efi_no, custom_no) refl,
        rw (e, barebox_no, grub_no, uboot_no, efi_no, custom_no, noop_no) refl,
        rw (e, barebox_no, grub_no, uboot_no, efi_no, custom_no) refl,
        rw (e, barebox_no, grub_no, uboot_no, efi_no, custom_no, noop_no) refl,
        rw (e, custom_no, efi_no, barebox_no) refl,
      )
