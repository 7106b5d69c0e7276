-- ===== src/Manifest/Tests.antt =====
-- Lookups in the table of handlers.
use rauc.Prelude.{◌≡◌, refl, none, some, codes, text_eq, strcmp0_eq}
use rauc.Manifest.{get_handler_from_type, img_to_fs_handler}

ext4_on_ext4 : get_handler_from_type (some (codes "ext4")) (codes "ext4") ≡ some img_to_fs_handler
unfolding get_handler_from_type text_eq strcmp0_eq
ext4_on_ext4 = refl

ubifs_on_vfat : get_handler_from_type (some (codes "ubifs")) (codes "vfat") ≡ none
unfolding get_handler_from_type text_eq strcmp0_eq
ubifs_on_vfat = refl
