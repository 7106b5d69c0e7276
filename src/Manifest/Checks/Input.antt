-- ===== src/Manifest/Checks/Input.antt =====
-- A manifest for a bundle to be made is not one of a bundle.
use rauc.Prelude.{
  ◌≡◌, inl, inr, true, not, none, some, List, [], ◌∷◌, map, Text, All, Result, ok, >>-eq-ok,
}
use rauc.Manifest.Checks.{
  format_plain, format_verity, format_crypt, ImageEntry, ManifestFile, require, is_none, no_outputs,
  check_manifest_common, check_manifest_plain, contains_slash, check_input_images,
  check_manifest_input, with_size, check_manifest_external,
}
use rauc.Manifest.Checks.Laws.{IsBundled, require-ok, check_manifest_external-IsExternal}

-- An image without a digest, as `check_manifest_input` wants it.
check_input_images-digest :
    (is : List ImageEntry) → check_input_images is ≡ ok tt → All (λ i. is_none i.digest ≡ true) is
unfolding check_input_images
check_input_images-digest [] h = tt
check_input_images-digest (i ∷ is) h =
    let (slash, h1) =
      >>-eq-ok (require (elim i.filename [ none ↦ true | some f ↦ not (contains_slash f) ])) _ h in
    let (digest, h2) = >>-eq-ok (require (is_none i.digest)) _ h1 in
    let (size, h3) = >>-eq-ok (require (is_none i.size)) _ h2 in
    let (converted, h4) = >>-eq-ok (require (no_outputs i.converted)) _ h3 in
    (require-ok (is_none i.digest) digest, check_input_images-digest is h4)

without_files :
    (is : List ImageEntry)
    → All (λ i. is_none i.digest ≡ true) is
    → All IsBundled is
    → All (λ i. i.filename ≡ none) is
without_files [] d b = tt
without_files (i ∷ is) (d, ds) (inl e, bs) = (e, without_files is ds bs)
without_files (i ∷ is) (d, ds) (inr z, bs) = absurd (cc (d, z.1))

-- A manifest that `check_manifest_input` accepts, as one for a bundle to be made, and that
-- `check_manifest_external` accepts, as one of a bundle, has no image with a file.
pub input-external_apart :
    (rauc_version : Text) (mf : ManifestFile)
    → check_manifest_input rauc_version mf ≡ ok tt
    → check_manifest_external rauc_version mf ≡ ok (map with_size mf.images)
    → All (λ i. i.filename ≡ none) mf.images
unfolding check_manifest_input
input-external_apart r mf h k =
    let (common, h1) = >>-eq-ok (check_manifest_common r mf) _ h in
    let (plain, images) =
      >>-eq-ok
        (elim mf.bundle_format as (λ x. Result (Unit {0})) [
          | format_plain ↦ check_manifest_plain mf.images
          | format_verity ↦ ok tt
          | format_crypt ↦ ok tt
        ])
        _ h1 in
    let external = (check_manifest_external-IsExternal r mf).0 k in
    without_files mf.images (check_input_images-digest mf.images images) external.images
