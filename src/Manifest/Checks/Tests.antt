-- ===== src/Manifest/Checks/Tests.antt =====
-- A manifest that is checked.
use rauc.Prelude.{
  All, ◌≡◌, refl, inl, inr, true, false, none, some, [], ◌∷◌, map, Text, codes, strsplit, pieces,
  digit_value, ok, arith,
}
use rauc.Utils.Semver.{
  all_digits, decimal, string_to_unsigned, split_last, split_first, split_max, numbers, parse_core,
  r_semver_parse, text_less, key_less, field_less, fields_le, pre_release_le, version_le,
  r_semver_less_equal,
}
use rauc.Utils.Hex.{r_hex_decode, decode_bytes}
use rauc.Manifest.Checks.Input.{input-external_apart}
use rauc.Manifest.Checks.{
  check_manifest_input, check_manifest_common, check_min_version, have_hooks, check_input_images,
  format_verity, ImageEntry, ManifestFile, version_at_most, with_size, check_manifest_external,
}
use rauc.Manifest.Checks.Laws.{IsHex, IsSupported, IsExternal, check_manifest_external-IsExternal}

abbrev image : ImageEntry
image = record {
  artifact = none;
  filename = some (codes "rootfs.ext4");
  image_type = some (codes "ext4");
  is_sha256 = true;
  digest = some (codes "d1");
  size = none;
  hooks = record { pre_install = false; install = true; post_install = false };
  convert = some (codes "tar" ∷ []);
  converted = some (codes "rootfs.tar" ∷ []);
}

abbrev digits : Text
digits = codes "00112233445566778899aabbccddeeff00112233445566778899aabbccddeeff"

abbrev file : ManifestFile
file = record {
  update_min_rauc_version = some (codes "1.14");
  bundle_format = format_verity;
  bundle_verity_salt = some digits;
  bundle_verity_hash = some digits;
  bundle_verity_size = 8192;
  bundle_crypt_key = none;
  hook_name = some (codes "hook");
  install_check = true;
  images = image ∷ [];
}

digits-IsHex : IsHex (some digits)
unfolding r_hex_decode decode_bytes digit_value
digits-IsHex = (digits, _, refl, refl)

supported : IsSupported (codes "1.15.1") (some (codes "1.14"))
unfolding version_at_most r_semver_less_equal version_le pre_release_le fields_le field_less
    key_less text_less strsplit pieces r_semver_parse split_last parse_core split_max split_first
    numbers string_to_unsigned all_digits decimal
supported = (refl, refl, refl)

external : IsExternal (codes "1.15.1") file
external = record {
  supported = supported;
  hooks = inl refl;
  format = inl refl;
  hash = digits-IsHex;
  salt = digits-IsHex;
  size = λ e. omega (arith, e);
  aligned = refl;
  images = (inr (refl, refl, inr refl, refl), tt);
}

check_manifest_external-IsExternal_example :
    check_manifest_external (codes "1.15.1") file ≡ ok (map with_size file.images)
check_manifest_external-IsExternal_example =
    (check_manifest_external-IsExternal (codes "1.15.1") file).1 external

-- An image that a hook installs without a file.
abbrev hook_only : ManifestFile
hook_only = record file {
  images = record image { filename = none; digest = none; converted = none } ∷ [];
}

input_accepted : check_manifest_input (codes "1.15.1") hook_only ≡ ok tt
unfolding check_manifest_input check_manifest_common check_min_version have_hooks check_input_images
    version_at_most r_semver_less_equal version_le pre_release_le fields_le field_less key_less
    text_less strsplit pieces r_semver_parse split_last parse_core split_max split_first numbers
    string_to_unsigned all_digits decimal
input_accepted = refl

hook_only-IsExternal : IsExternal (codes "1.15.1") hook_only
hook_only-IsExternal = record {
  supported = supported;
  hooks = inl refl;
  format = inl refl;
  hash = digits-IsHex;
  salt = digits-IsHex;
  size = λ e. omega (arith, e);
  aligned = refl;
  images = (inl refl, tt);
}

input-external_apart_example : All (λ i. i.filename ≡ none) hook_only.images
input-external_apart_example =
    input-external_apart (codes "1.15.1") hook_only input_accepted
      ((check_manifest_external-IsExternal (codes "1.15.1") hook_only).1 hook_only-IsExternal)
