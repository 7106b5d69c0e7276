-- ===== src/Manifest.antt =====
-- The manifest as the installation reads it (include/manifest.h), and the choice of a handler for
-- an image (src/update_handler.c).
pub mod Checks
mod Tests
use rauc.Prelude.{
  ℕ, Bool, true, false, ◌&&◌, Option, none, some, List, [], ◌∷◌, Text, codes, text_eq, strcmp0_eq,
  if◌then◌else◌, Result, ok, err, update_no_handler,
}
use rauc.Slot.{Slot, Checksum}

-- `SlotHooks`
pub record SlotHooks : Type 0 where
  pub pre_install : Bool
  pub install : Bool
  pub post_install : Bool

-- `RaucImage`, with the members that an installation reads.
pub record Image : Type 0 where
  pub slotclass : Text
  pub artifact : Option Text
  pub variant : Option Text
  pub checksum : Checksum
  pub filename : Option Text
  pub image_type : Option Text
  pub hooks : SlotHooks
  pub converted : List Text

-- `RaucManifest`, with the members that an installation reads.
pub record Manifest : Type 0 where
  pub update_compatible : Option Text
  pub update_version : Option Text
  pub update_description : Option Text
  pub update_build : Option Text
  pub hash : Option Text
  pub handler_name : Option Text
  pub hook_name : Option Text
  pub install_check : Bool
  pub images : List Image

-- The handlers of `image_type_map`, and the one for an `install` hook.
pub data Handler : Type 0 where
  hook_install_handler : Handler
  img_to_fs_handler : Handler
  img_to_raw_handler : Handler
  img_to_ubivol_handler : Handler
  img_to_ubifs_handler : Handler
  archive_to_ext4_handler : Handler
  archive_to_ubifs_handler : Handler
  archive_to_vfat_handler : Handler
  img_to_nor_handler : Handler
  img_to_nand_handler : Handler
  archive_to_jffs2_handler : Handler
  img_to_boot_emmc_handler : Handler
  img_to_boot_mbr_switch_handler : Handler
  img_to_boot_gpt_switch_handler : Handler
  img_to_boot_raw_fallback_handler : Handler

pub record TypeMap : Type 0 where
  pub type : Text
  pub slottype : Text
  pub handler : Handler

abbrev entry : Text → Text → Handler → TypeMap
entry t s h = record { type = t; slottype = s; handler = h }

-- `image_type_map`, with eMMC and GPT support built in.
abbrev pub image_type_map : List TypeMap
image_type_map =
    entry (codes "ext4-caibx") (codes "ext4") img_to_fs_handler
    ∷ entry (codes "raw-caibx") (codes "ext4") img_to_raw_handler
    ∷ entry (codes "ext4-caibx") (codes "raw") img_to_raw_handler
    ∷ entry (codes "vfat-caibx") (codes "raw") img_to_raw_handler
    ∷ entry (codes "raw-caibx") (codes "raw") img_to_raw_handler
    ∷ entry (codes "raw-caibx") (codes "vfat") img_to_raw_handler
    ∷ entry (codes "raw-caibx") (codes "jffs2") img_to_raw_handler
    ∷ entry (codes "raw-caibx") (codes "nor") img_to_raw_handler
    ∷ entry (codes "raw-caibx") (codes "nand") img_to_raw_handler
    ∷ entry (codes "squashfs-caibx") (codes "raw") img_to_raw_handler
    ∷ entry (codes "squashfs-caibx") (codes "ubivol") img_to_ubivol_handler
    ∷ entry (codes "ubifs-caibx") (codes "ubivol") img_to_ubivol_handler
    ∷ entry (codes "raw-caibx") (codes "ubivol") img_to_ubivol_handler
    ∷ entry (codes "ubifs-caibx") (codes "ubifs") img_to_ubifs_handler
    ∷ entry (codes "raw-caibx") (codes "ubifs") img_to_ubifs_handler
    ∷ entry (codes "caidx") (codes "ext4") archive_to_ext4_handler
    ∷ entry (codes "caidx") (codes "ubifs") archive_to_ubifs_handler
    ∷ entry (codes "caidx") (codes "vfat") archive_to_vfat_handler
    ∷ entry (codes "catar") (codes "ext4") archive_to_ext4_handler
    ∷ entry (codes "ext4") (codes "ext4") img_to_fs_handler
    ∷ entry (codes "ext4") (codes "raw") img_to_raw_handler
    ∷ entry (codes "vfat") (codes "vfat") img_to_fs_handler
    ∷ entry (codes "vfat") (codes "raw") img_to_raw_handler
    ∷ entry (codes "squashfs") (codes "ubivol") img_to_ubivol_handler
    ∷ entry (codes "squashfs") (codes "raw") img_to_raw_handler
    ∷ entry (codes "ubifs") (codes "ubivol") img_to_ubivol_handler
    ∷ entry (codes "ubifs") (codes "ubifs") img_to_ubifs_handler
    ∷ entry (codes "raw") (codes "ext4") img_to_fs_handler
    ∷ entry (codes "raw") (codes "nor") img_to_nor_handler
    ∷ entry (codes "raw") (codes "nand") img_to_nand_handler
    ∷ entry (codes "raw") (codes "ubifs") img_to_ubifs_handler
    ∷ entry (codes "raw") (codes "ubivol") img_to_ubivol_handler
    ∷ entry (codes "raw") (codes "vfat") img_to_fs_handler
    ∷ entry (codes "raw") (codes "raw") img_to_raw_handler
    ∷ entry (codes "raw") (codes "jffs2") img_to_raw_handler
    ∷ entry (codes "tar") (codes "ext4") archive_to_ext4_handler
    ∷ entry (codes "tar") (codes "ubifs") archive_to_ubifs_handler
    ∷ entry (codes "tar") (codes "vfat") archive_to_vfat_handler
    ∷ entry (codes "tar") (codes "jffs2") archive_to_jffs2_handler
    ∷ entry (codes "raw") (codes "boot-emmc") img_to_boot_emmc_handler
    ∷ entry (codes "vfat") (codes "boot-mbr-switch") img_to_boot_mbr_switch_handler
    ∷ entry (codes "raw") (codes "boot-mbr-switch") img_to_boot_mbr_switch_handler
    ∷ entry (codes "vfat") (codes "boot-gpt-switch") img_to_boot_gpt_switch_handler
    ∷ entry (codes "ext4") (codes "boot-gpt-switch") img_to_boot_gpt_switch_handler
    ∷ entry (codes "raw") (codes "boot-gpt-switch") img_to_boot_gpt_switch_handler
    ∷ entry (codes "raw") (codes "boot-raw-fallback") img_to_boot_raw_fallback_handler
    ∷ entry (codes "emptyfs") (codes "ext4") archive_to_ext4_handler
    ∷ []

handler_in : List TypeMap → Option Text → Text → Option Handler
handler_in [] image_type slot_type = none
handler_in (m ∷ ms) image_type slot_type =
    let rest = handler_in ms image_type slot_type in
    if strcmp0_eq (some m.type) image_type && text_eq m.slottype slot_type
    then some m.handler
    else rest

-- `get_handler_from_type`
unfoldable pub get_handler_from_type : Option Text → Text → Option Handler
unfolding handler_in
get_handler_from_type = handler_in image_type_map

supported_in : List TypeMap → Text → Bool
supported_in [] type = false
supported_in (m ∷ ms) type = if text_eq m.type type then true else supported_in ms type

-- `is_image_type_supported`
unfoldable pub is_image_type_supported : Text → Bool
unfolding supported_in
is_image_type_supported = supported_in image_type_map

-- `get_update_handler`
unfoldable pub get_update_handler : Image → Slot → Result Handler
get_update_handler image dest =
    if image.hooks.install
    then ok hook_install_handler
    else elim (get_handler_from_type image.image_type dest.slot_type) [
      | none ↦ err update_no_handler
      | some h ↦ ok h
    ]
