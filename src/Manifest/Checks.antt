-- ===== src/Manifest/Checks.antt =====
-- src/manifest.c: the checks on a manifest that was loaded.
pub mod Laws
pub mod Input
mod Tests
use rauc.Prelude.{
  ℕ, ◌%◌, Bool, true, false, not, ◌&&◌, ◌||◌, Option, none, some, List, [], ◌∷◌, map, Text, codes,
  length, ◌==◌, strcmp0_eq, if◌then◌else◌, Result, ok, err, ◌>>=◌, ◌>>◌, manifest_check,
  manifest_parse, key_file_not_found,
}
use rauc.Manifest.{SlotHooks}
use rauc.Utils.Semver.{r_semver_less_equal}
use rauc.Utils.Hex.{r_hex_decode}

-- `RManifestBundleFormat`
pub data BundleFormat : Type 0 where
  format_plain format_verity format_crypt : BundleFormat

-- `RaucImage`, with the members that the checks read. A size that is not given, -1 in the source, is
-- `none`.
pub record ImageEntry : Type 0 where
  pub artifact : Option Text
  pub filename : Option Text
  pub image_type : Option Text
  pub is_sha256 : Bool
  pub digest : Option Text
  pub size : Option ℕ
  pub hooks : SlotHooks
  pub convert : Option (List Text)
  pub converted : Option (List Text)

-- `RaucManifest`, with the members that the checks read.
pub record ManifestFile : Type 0 where
  pub update_min_rauc_version : Option Text
  pub bundle_format : BundleFormat
  pub bundle_verity_salt : Option Text
  pub bundle_verity_hash : Option Text
  pub bundle_verity_size : ℕ
  pub bundle_crypt_key : Option Text
  pub hook_name : Option Text
  pub install_check : Bool
  pub images : List ImageEntry

-- A condition without which a check fails.
abbrev pub require : Bool → Result (Unit {0})
require c = if c then ok tt else err manifest_check

abbrev pub is_none {ℓ} : {A : Type ℓ} → Option A → Bool
is_none none = true
is_none (some a) = false

-- `r_semver_less_equal(a, b, NULL)`: FALSE too where a version cannot be parsed.
unfoldable pub version_at_most : Text → Text → Bool
version_at_most a b = elim (r_semver_less_equal a b) [ err e ↦ false | ok le ↦ le ]

-- `validate_filename_requirements`
unfoldable pub validate_filename_requirements : ImageEntry → Result (Unit {0})
validate_filename_requirements image =
    if strcmp0_eq image.image_type (some (codes "emptyfs"))
    then (if is_none image.filename then ok tt else err manifest_parse)
    else if is_none image.filename && not image.hooks.install
    then err key_file_not_found
    else ok tt

-- The checks of the version in `check_manifest_common`. `rauc_version` is the version of the build.
unfoldable pub check_min_version : Text → Option Text → Result (Unit {0})
check_min_version rauc_version none = ok tt
check_min_version rauc_version (some v) =
    require (version_at_most (codes "0") v)
    >> (require (version_at_most v rauc_version)
        >> require (not (version_at_most v (codes "1.13"))))

unfoldable pub have_hooks : List ImageEntry → Bool
have_hooks [] = false
have_hooks (i ∷ is) =
    (i.hooks.pre_install || (i.hooks.install || i.hooks.post_install)) || have_hooks is

-- `check_manifest_common`; the format is one of the three by its type.
unfoldable pub check_manifest_common : Text → ManifestFile → Result (Unit {0})
check_manifest_common rauc_version mf =
    check_min_version rauc_version mf.update_min_rauc_version
    >> require (not ((mf.install_check || have_hooks mf.images) && is_none mf.hook_name))

abbrev no_outputs : Option (List Text) → Bool
no_outputs none = true
no_outputs (some []) = true
no_outputs (some (_ ∷ _)) = false

-- `check_manifest_plain`
unfoldable pub check_manifest_plain : List ImageEntry → Result (Unit {0})
check_manifest_plain [] = ok tt
check_manifest_plain (i ∷ is) =
    require (is_none i.artifact)
    >> (require (is_none i.convert && no_outputs i.converted) >> check_manifest_plain is)

abbrev converted_all : Option (List Text) → Option (List Text) → Bool
converted_all none converted = true
converted_all (some convert) none = false
converted_all (some convert) (some converted) = length convert == length converted

-- The image after `check_manifest_bundled`: a size that is not given is 0 with an `install` hook.
abbrev pub with_size : ImageEntry → ImageEntry
with_size i = elim i.filename [
  | none ↦ i
  | some f ↦ elim i.size [ some n ↦ i | none ↦ record i { size = some 0 } ]
]

-- The checks of `check_manifest_bundled` on one image.
unfoldable pub check_bundled_image : ImageEntry → Result (Unit {0})
check_bundled_image i = elim i.filename [
  | none ↦ ok tt
  | some f ↦
      require i.is_sha256
      >> (require (not (is_none i.digest))
          >> (require (not (is_none i.size) || i.hooks.install)
              >> require (converted_all i.convert i.converted)))
]

-- `check_manifest_bundled`, with the images that it leaves.
unfoldable pub check_manifest_bundled : List ImageEntry → Result (List ImageEntry)
check_manifest_bundled [] = ok []
check_manifest_bundled (i ∷ is) =
    check_bundled_image i >> (check_manifest_bundled is >>= λ rest. ok (with_size i ∷ rest))

-- The checks of `check_manifest_input` on the images.
unfoldable pub contains_slash : Text → Bool
contains_slash [] = false
contains_slash (c ∷ s) = c == b'/' || contains_slash s

unfoldable pub check_input_images : List ImageEntry → Result (Unit {0})
check_input_images [] = ok tt
check_input_images (i ∷ is) =
    require (elim i.filename [ none ↦ true | some f ↦ not (contains_slash f) ])
    >> (require (is_none i.digest)
        >> (require (is_none i.size)
            >> (require (no_outputs i.converted) >> check_input_images is)))

-- `check_manifest_input`
unfoldable pub check_manifest_input : Text → ManifestFile → Result (Unit {0})
check_manifest_input rauc_version mf =
    check_manifest_common rauc_version mf
    >> (elim mf.bundle_format [
      | format_plain ↦ check_manifest_plain mf.images
      | format_verity ↦ ok tt
      | format_crypt ↦ ok tt
    ]
        >> check_input_images mf.images)

-- `check_manifest_internal`
unfoldable pub check_manifest_internal : Text → ManifestFile → Result (List ImageEntry)
check_manifest_internal rauc_version mf = do
  check_manifest_common rauc_version mf
  require
      (elim mf.bundle_format [ format_plain ↦ true | format_verity ↦ false | format_crypt ↦ false ])
  images ← check_manifest_bundled mf.images
  check_manifest_plain images
  require (is_none mf.bundle_crypt_key)
  require (is_none mf.bundle_verity_hash)
  require (is_none mf.bundle_verity_salt)
  require (mf.bundle_verity_size == 0)
  ok images

-- A text of 64 hexadecimal digits.
unfoldable pub check_hex : Option Text → Result (Unit {0})
check_hex none = err manifest_check
check_hex (some s) = require (not (is_none (r_hex_decode s 32)))

-- The cases of `check_manifest_external` for the format.
unfoldable pub check_verity : ManifestFile → Result (Unit {0})
check_verity mf =
    check_hex mf.bundle_verity_hash
    >> (check_hex mf.bundle_verity_salt
        >> (require (not (mf.bundle_verity_size == 0))
            >> require (mf.bundle_verity_size % 4096 == 0)))

unfoldable pub check_format : ManifestFile → Result (Unit {0})
check_format mf = elim mf.bundle_format [
  | format_plain ↦ err manifest_check
  | format_crypt ↦ check_hex mf.bundle_crypt_key >> check_verity mf
  | format_verity ↦ check_verity mf
]

-- `check_manifest_external`
unfoldable pub check_manifest_external : Text → ManifestFile → Result (List ImageEntry)
check_manifest_external rauc_version mf =
    check_manifest_common rauc_version mf >> (check_format mf >> check_manifest_bundled mf.images)

-- `check_manifest_create`
unfoldable pub check_manifest_create : List ImageEntry → Result (Unit {0})
check_manifest_create [] = ok tt
check_manifest_create (i ∷ is) =
    require (not (i.hooks.install && (i.hooks.pre_install || i.hooks.post_install)))
    >> check_manifest_create is
