-- ===== src/Boot/Uboot/Contract.antt =====
-- The U-Boot backend keeps the contract of a backend.
use rauc.Prelude.{◌≡◌, ◌≢◌, ◌<◌, ◌^◌, refl, some, [], Text, All, IsGraphic}
use rauc.Slot.{Slot, Slots}
use rauc.Boot.Tools.{Tools, BootConfig}
use rauc.Boot.Names.{find_by_bootname}
use rauc.Boot.Backend.{IsBackend}
use rauc.Boot.Uboot.{uboot_backend}
use rauc.Boot.Uboot.Laws.{FwLaws}
use rauc.Boot.Uboot.Primary.{get_primary-set_primary, get_state-set_primary}
use rauc.Boot.Uboot.State.{set_state-bad}

-- A slot whose bootname can stand in the boot order, and which is the first of its bootname.
pub record IsListed (slots : Slots) (s : Slot) : Type 0 where
  pub name : Text
  pub named : s.bootname ≡ some name
  pub nonempty : name ≢ []
  pub graphic : All IsGraphic name
  pub first : find_by_bootname slots name ≡ some s

-- The U-Boot backend keeps the contract of a backend, on every environment, for a slot whose
-- bootname is not empty, has no white space and is carried by no slot before it in the table, where
-- the configured attempts fit 32 bits.
pub uboot_backend-IsBackend :
    (t : Tools) (fw : FwLaws t) (config : BootConfig)
    → config.boot_attempts_primary < 2 ^ 32
    → config.boot_default_attempts < 2 ^ 32
    → IsBackend (uboot_backend t config) (λ w s. IsListed config.slots s)
uboot_backend-IsBackend t fw config primary default = record {
  primary_read = λ s w n h.
      get_primary-set_primary t fw config s w n.name n.named n.nonempty n.graphic n.first primary h;
  primary_good = λ s w n h.
      get_state-set_primary t fw config s w n.name n.named n.nonempty n.graphic n.first primary h;
  bad_read = λ s w n h. set_state-bad t fw config s w s h default refl;
}
