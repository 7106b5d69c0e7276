-- ===== src/Manifest/Checks/Laws.antt =====
-- What the checks on a manifest accept, described on its own.
use rauc.Prelude.{
  ℕ, ◌%◌, ◌≡◌, ◌≢◌, ◌↔◌, ◌⊎◌, inl, inr, refl, sym, ap, ◌∙◌, Bool, true, false, not, ◌&&◌, ◌||◌,
  Option, Option-cases, none, some, List, [], ◌∷◌, map, Text, codes, ◌==◌, All, Result, ok, err,
  ◌>>◌, >>-eq-ok, >>=-eq-ok, ok_injective, manifest_check, arith,
}
use mathlib.Core.Path.{subst}
use mathlib.Core.Option.{some-injective}
use mathlib.Core.List.{tail-eq_of_cons-eq}
use rauc.Utils.Hex.{r_hex_decode}
use rauc.Manifest.Checks.{
  BundleFormat, format_plain, format_verity, format_crypt, ImageEntry, ManifestFile, require,
  is_none, version_at_most, check_min_version, have_hooks, check_manifest_common, with_size,
  check_bundled_image, converted_all, check_manifest_bundled, check_hex, check_verity, check_format,
  check_manifest_external,
}

-- A text of 64 hexadecimal digits.
abbrev pub IsHex : Option Text → Type 0
IsHex o = (s : Text) × (raw : List ℕ) × (o ≡ some s) × (r_hex_decode s 32 ≡ some raw)

-- A manifest asks for no version, or for one that is later than 1.13 and not later than this one.
abbrev pub IsSupported : Text → Option Text → Type 0
IsSupported rauc_version none = Unit
IsSupported rauc_version (some v) =
    (version_at_most (codes "0") v ≡ true)
    × (version_at_most v rauc_version ≡ true)
    × (version_at_most v (codes "1.13") ≡ false)

abbrev pub HasNoHooks : ImageEntry → Type 0
HasNoHooks i =
    (i.hooks.pre_install ≡ false) × (i.hooks.install ≡ false) × (i.hooks.post_install ≡ false)

-- An image with a file has its digest, a size unless its hook installs it, and as many outputs of
-- its converters as it has converters.
abbrev pub IsBundled : ImageEntry → Type 0
IsBundled i =
    (i.filename ≡ none)
    ⊎ ((i.is_sha256 ≡ true)
        × (is_none i.digest ≡ false)
        × ((is_none i.size ≡ false) ⊎ (i.hooks.install ≡ true))
        × (converted_all i.convert i.converted ≡ true))

-- A manifest that stands outside of the bundle: it has what is needed to verify the bundle, and to
-- decrypt it where it is encrypted.
pub record IsExternal (rauc_version : Text) (mf : ManifestFile) : Type 0 where
  pub supported : IsSupported rauc_version mf.update_min_rauc_version
  pub hooks :
      (is_none mf.hook_name ≡ false) ⊎ ((mf.install_check ≡ false) × All HasNoHooks mf.images)
  pub format :
      (mf.bundle_format ≡ format_verity)
      ⊎ ((mf.bundle_format ≡ format_crypt) × IsHex mf.bundle_crypt_key)
  pub hash : IsHex mf.bundle_verity_hash
  pub salt : IsHex mf.bundle_verity_salt
  pub size : mf.bundle_verity_size ≢ 0
  pub aligned : mf.bundle_verity_size % 4096 ≡ 0
  pub images : All IsBundled mf.images

pub require-ok : (c : Bool) → require c ≡ ok tt → c ≡ true
require-ok true h = refl
require-ok false h = cc

require-true : (c : Bool) → c ≡ true → require c ≡ ok tt
require-true c h = rw h refl

both_ok : {a b : Result (Unit {0})} → a ≡ ok tt → b ≡ ok tt → (a >> b) ≡ ok tt
both_ok {a = a} {b = b} h k = rw h k

check_hex-IsHex : (o : Option Text) → (check_hex o ≡ ok tt) ↔ IsHex o
unfolding check_hex
check_hex-IsHex none = (λ h. cc, λ (s, raw, e, d). cc)
check_hex-IsHex (some s) = (to (r_hex_decode s 32) refl, from)
  where
    to :
        (o : Option (List ℕ))
        → r_hex_decode s 32 ≡ o
        → require (not (is_none o)) ≡ ok tt
        → IsHex (some s)
    to none e h = cc
    to (some raw) e h = (s, raw, refl, e)

    from : IsHex (some s) → require (not (is_none (r_hex_decode s 32))) ≡ ok tt
    from (s', raw, e, d) =
        subst (λ x. require (not (is_none (r_hex_decode x 32))) ≡ ok tt)
          (sym (some-injective s s' e)) (rw d refl)

check_min_version-IsSupported :
    (rauc_version : Text) (o : Option Text)
    → (check_min_version rauc_version o ≡ ok tt) ↔ IsSupported rauc_version o
unfolding check_min_version
check_min_version-IsSupported r none = (λ h. tt, λ h. refl)
check_min_version-IsSupported r (some v) = (λ h. ground arith, λ (a, b, c). rw (a, b, c) refl)

have_hooks-HasNoHooks : (is : List ImageEntry) → (have_hooks is ≡ false) ↔ All HasNoHooks is
unfolding have_hooks
have_hooks-HasNoHooks [] = (λ h. tt, λ h. refl)
have_hooks-HasNoHooks (i ∷ is) = (
  λ h. ((ground arith, ground arith, ground arith), (have_hooks-HasNoHooks is).0 (ground arith)),
  λ (h, hs). ground (arith, (have_hooks-HasNoHooks is).1 hs),
)

four_conditions :
    (a b c d e : Bool)
    → ((require a >> (require (not b) >> (require (not c || d) >> require e))) ≡ ok tt)
      ↔ ((a ≡ true) × (b ≡ false) × ((c ≡ false) ⊎ (d ≡ true)) × (e ≡ true))
four_conditions false b c d e = (λ h. cc, λ h. cc)
four_conditions true true c d e = (λ h. cc, λ h. cc)
four_conditions true false true false e = (λ h. cc, λ h. elim h.2 [ inl z ↦ cc | inr z ↦ cc ])
four_conditions true false true true e =
    (λ h. (refl, refl, inr refl, require-ok e h), λ h. require-true e h.3)
four_conditions true false false d e =
    (λ h. (refl, refl, inl refl, require-ok e h), λ h. require-true e h.3)

check_bundled_image-named :
    (i : ImageEntry) (f : Text)
    → i.filename ≡ some f
    → check_bundled_image i ≡ (
        require i.is_sha256
        >> (require (not (is_none i.digest))
            >> (require (not (is_none i.size) || i.hooks.install)
                >> require (converted_all i.convert i.converted))))
unfolding check_bundled_image
check_bundled_image-named i f e =
    ap
      (λ o. elim o as (λ x. Result (Unit {0})) [
        | none ↦ ok tt
        | some g ↦
            require i.is_sha256
            >> (require (not (is_none i.digest))
                >> (require (not (is_none i.size) || i.hooks.install)
                    >> require (converted_all i.convert i.converted)))
      ])
      e

check_bundled_image-unnamed : (i : ImageEntry) → i.filename ≡ none → check_bundled_image i ≡ ok tt
unfolding check_bundled_image
check_bundled_image-unnamed i e =
    ap
      (λ o. elim o as (λ x. Result (Unit {0})) [
        | none ↦ ok tt
        | some g ↦
            require i.is_sha256
            >> (require (not (is_none i.digest))
                >> (require (not (is_none i.size) || i.hooks.install)
                    >> require (converted_all i.convert i.converted)))
      ])
      e

check_bundled_image-IsBundled : (i : ImageEntry) → (check_bundled_image i ≡ ok tt) ↔ IsBundled i
check_bundled_image-IsBundled i = elim (Option-cases i.filename) [
  | inl e ↦ (λ h. inl e, λ h. check_bundled_image-unnamed i e)
  | inr (f, e) ↦
      let all =
        four_conditions i.is_sha256 (is_none i.digest) (is_none i.size) i.hooks.install
          (converted_all i.convert i.converted) in
      (
        λ h. inr (all.0 (sym (check_bundled_image-named i f e) ∙ h)),
        λ h. elim h [
          | inl z ↦ check_bundled_image-unnamed i z
          | inr z ↦ check_bundled_image-named i f e ∙ all.1 z
        ],
      )
]

-- The images that are accepted, and what is left of them.
check_manifest_bundled-IsBundled :
    (is : List ImageEntry) → (check_manifest_bundled is ≡ ok (map with_size is)) ↔ All IsBundled is
unfolding check_manifest_bundled
check_manifest_bundled-IsBundled [] = (λ h. tt, λ h. refl)
check_manifest_bundled-IsBundled (i ∷ is) = (
  λ h.
      let (image, more) = >>-eq-ok (check_bundled_image i) _ h in
      let (rest, read, same) = >>=-eq-ok (check_manifest_bundled is) _ more in
      let tail : rest ≡ map with_size is = tail-eq_of_cons-eq (ok_injective same) in
      (
        (check_bundled_image-IsBundled i).0 image,
        (check_manifest_bundled-IsBundled is).0 (read ∙ ap ok tail),
      ),
  λ (h, hs).
      rw ((check_bundled_image-IsBundled i).1 h, (check_manifest_bundled-IsBundled is).1 hs) refl,
)

check_verity-lem :
    (mf : ManifestFile)
    → (check_verity mf ≡ ok tt) ↔ (
        IsHex mf.bundle_verity_hash
        × IsHex mf.bundle_verity_salt
        × (mf.bundle_verity_size ≢ 0)
        × (mf.bundle_verity_size % 4096 ≡ 0))
unfolding check_verity
check_verity-lem mf = (
  λ h.
      let (hash, h1) = >>-eq-ok (check_hex mf.bundle_verity_hash) _ h in
      let (salt, h2) = >>-eq-ok (check_hex mf.bundle_verity_salt) _ h1 in
      let (size, aligned) = >>-eq-ok (require (not (mf.bundle_verity_size == 0))) _ h2 in
      (
        (check_hex-IsHex mf.bundle_verity_hash).0 hash,
        (check_hex-IsHex mf.bundle_verity_salt).0 salt,
        (λ z. ground (arith, require-ok (not (mf.bundle_verity_size == 0)) size)),
        ground (arith, require-ok (mf.bundle_verity_size % 4096 == 0) aligned),
      ),
  λ (hash, salt, size, aligned).
      rw
        (
          (check_hex-IsHex mf.bundle_verity_hash).1 hash,
          (check_hex-IsHex mf.bundle_verity_salt).1 salt,
        )
        (ground arith),
)

check_format-lem :
    (mf : ManifestFile)
    → (check_format mf ≡ ok tt) ↔ (
        ((mf.bundle_format ≡ format_verity)
          ⊎ ((mf.bundle_format ≡ format_crypt) × IsHex mf.bundle_crypt_key))
        × (check_verity mf ≡ ok tt))
unfolding check_format
check_format-lem mf = at mf.bundle_format
  where
    at :
        (f : BundleFormat)
        → ((elim f [
          | format_plain ↦ err manifest_check
          | format_crypt ↦ check_hex mf.bundle_crypt_key >> check_verity mf
          | format_verity ↦ check_verity mf
        ])
            ≡ ok tt)
          ↔ (((f ≡ format_verity) ⊎ ((f ≡ format_crypt) × IsHex mf.bundle_crypt_key))
              × (check_verity mf ≡ ok tt))
    at format_plain = (λ h. cc, λ (h, k). elim h [ inl z ↦ cc | inr z ↦ cc ])
    at format_verity = (λ h. (inl refl, h), λ (h, k). k)
    at format_crypt = (
      λ h.
          let (key, rest) = >>-eq-ok (check_hex mf.bundle_crypt_key) _ h in
          (inr (refl, (check_hex-IsHex mf.bundle_crypt_key).0 key), rest),
      λ (h, k). elim h [
        | inl z ↦ cc
        | inr z ↦ both_ok ((check_hex-IsHex mf.bundle_crypt_key).1 z.1) k
      ],
    )

hooks_lem :
    (checked missing : Bool) (is : List ImageEntry)
    → (require (not ((checked || have_hooks is) && missing)) ≡ ok tt)
      ↔ ((missing ≡ false) ⊎ ((checked ≡ false) × All HasNoHooks is))
hooks_lem checked false is = (λ h. inl refl, λ h. ground arith)
hooks_lem checked true is = (
  λ h.
      let z : (checked || have_hooks is) ≡ false = ground (arith, require-ok _ h) in
      inr (ground arith, (have_hooks-HasNoHooks is).0 (ground arith)),
  λ h. elim h [ inl z ↦ cc | inr z ↦ ground (arith, (have_hooks-HasNoHooks is).1 z.1) ],
)

-- `check_manifest_external` accepts a manifest just where it is one that can stand outside of the
-- bundle: the images are those of the manifest, with a size of 0 where an `install` hook has none.
pub check_manifest_external-IsExternal :
    (rauc_version : Text) (mf : ManifestFile)
    → (check_manifest_external rauc_version mf ≡ ok (map with_size mf.images))
      ↔ IsExternal rauc_version mf
unfolding check_manifest_external check_manifest_common
check_manifest_external-IsExternal r mf = (to, from)
  where
    to : check_manifest_external r mf ≡ ok (map with_size mf.images) → IsExternal r mf
    to h =
        let (common, rest) = >>-eq-ok (check_manifest_common r mf) _ h in
        let (version, hooks) = >>-eq-ok (check_min_version r mf.update_min_rauc_version) _ common in
        let (form, bundled) = >>-eq-ok (check_format mf) _ rest in
        let (format, verity) = (check_format-lem mf).0 form in
        let (hash, salt, size, aligned) = (check_verity-lem mf).0 verity in
        record {
          supported = (check_min_version-IsSupported r mf.update_min_rauc_version).0 version;
          hooks = (hooks_lem mf.install_check (is_none mf.hook_name) mf.images).0 hooks;
          format = format;
          hash = hash;
          salt = salt;
          size = size;
          aligned = aligned;
          images = (check_manifest_bundled-IsBundled mf.images).0 bundled;
        }

    from : IsExternal r mf → check_manifest_external r mf ≡ ok (map with_size mf.images)
    from e =
        let version = (check_min_version-IsSupported r mf.update_min_rauc_version).1 e.supported in
        let hooks = (hooks_lem mf.install_check (is_none mf.hook_name) mf.images).1 e.hooks in
        let verity = (check_verity-lem mf).1 (e.hash, e.salt, e.size, e.aligned) in
        let form = (check_format-lem mf).1 (e.format, verity) in
        ap (λ x. x >> (check_format mf >> check_manifest_bundled mf.images)) (both_ok version hooks)
        ∙ ap (λ x. x >> check_manifest_bundled mf.images) form
        ∙ (check_manifest_bundled-IsBundled mf.images).1 e.images
