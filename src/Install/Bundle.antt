-- ===== src/Install/Bundle.antt =====
-- src/install.c: `do_install_bundle` and its checks of the bundle.
pub mod Gate
pub mod Laws
mod Tests
use rauc.Prelude.{
  ℕ, Bool, true, false, not, ◌&&◌, Option, none, some, List, [], ◌∷◌, Text, strcmp0_eq,
  if◌then◌else◌, Result, ok, err, Error, install_rejected, install_compat_mismatch,
  install_version_mismatch,
}
use rauc.Slot.{Slot}
use rauc.Manifest.{Image, Manifest}
use rauc.Machine.{
  Io, SystemConfig, Bundle, Run, Step, Event, opened, mounted, hook_passed, handed_over, unmounted,
  call, act, act, act_ok, return, fail, lift, ◌>>=◌, ◌>>◌,
}
use rauc.Utils.Semver.{r_semver_less_equal}
use rauc.Install.Select.{determine_target_install_group}
use rauc.Install.Slots.{InstallArgs}
use rauc.Install.Default.{default_handler}

-- `verify_compatible`
unfoldable pub verify_compatible : SystemConfig → InstallArgs → Manifest → Result (Unit {0})
verify_compatible config args manifest =
    if args.ignore_compatible
    then ok tt
    else if strcmp0_eq config.system_compatible manifest.update_compatible
    then ok tt
    else err install_compat_mismatch

-- `check_version_limits`
unfoldable pub check_version_limits : SystemConfig → InstallArgs → Manifest → Result (Unit {0})
check_version_limits config args manifest = elim config.system_min_bundle_version [
  | none ↦ ok tt
  | some least ↦ if args.ignore_version_limit then ok tt else elim manifest.update_version [
    | none ↦ err install_version_mismatch
    | some version ↦ elim (r_semver_less_equal least version) [
      | err e ↦ err e
      | ok fits ↦ if fits then ok tt else err install_version_mismatch
    ]
  ]
]

-- The checks of an opened bundle: the expected manifest hash, and that a crypt bundle came
-- encrypted.
unfoldable pub check_opened : InstallArgs → Bundle → Result (Unit {0})
check_opened args bundle =
    let hash_fits : Bool = elim args.require_manifest_hash [
      | none ↦ true
      | some h ↦ elim bundle.manifest [ none ↦ false | some m ↦ strcmp0_eq (some h) m.hash ]
    ] in
    let crypt : Bool = elim bundle.manifest [ none ↦ false | some m ↦ bundle.is_crypt ] in
    if not hash_fits
    then err install_rejected
    else if crypt && not bundle.was_encrypted
    then err install_rejected
    else ok tt

module _ (io : Io) (config : SystemConfig) where
  open io use {
    World, uuid, external_mount_points, check_bundle, mount_bundle, umount_bundle, bundle_hook,
    system_handler, custom_handler,
  }

  -- A handler of the system configuration, where there is one.
  unfoldable pub run_handler : Option Text → Step World (Unit {0})
  run_handler none = return tt
  run_handler (some h) = call (system_handler h)

  -- The install-check hook takes the place of the compatible check.
  unfoldable pub check_compatible : InstallArgs → Manifest → Step World (Unit {0})
  check_compatible args manifest =
      if manifest.install_check
      then act_ok (λ u. hook_passed manifest) (bundle_hook manifest)
      else lift (verify_compatible config args manifest)

  unfoldable pub run_install : InstallArgs → Manifest → List (Text × Slot) → Step World (Unit {0})
  run_install args manifest group = elim manifest.handler_name [
    | some h ↦ act (λ w. handed_over) (custom_handler manifest)
    | none ↦ default_handler io config manifest args group
  ]

  -- What is done while the bundle is mounted. The statuses are those that `r_slot_status_load` has
  -- loaded for the candidates.
  unfoldable pub install_mounted_bundle : InstallArgs → Manifest → Step World (Unit {0})
  install_mounted_bundle args manifest r =
      let group = determine_target_install_group config.per_slot r.statuses config.slots in
      (run_handler config.preinstall_handler
          >> (check_compatible args manifest
              >> (lift (check_version_limits config args manifest)
                  >> (run_install args manifest group >> run_handler config.postinstall_handler))))
        r

  unfoldable pub umount_step : Result (Unit {0}) × Run World → Result (Unit {0}) × Run World
  umount_step (x, r) = (x, record r { world = umount_bundle r.world; trace = unmounted ∷ r.trace })

  -- `do_install_bundle`, from the label `umount` on: a bundle that was mounted is unmounted.
  unfoldable pub with_bundle : InstallArgs → Bundle → Step World (Unit {0})
  with_bundle args bundle r =
      let (found, q) = act_ok (mounted bundle) (mount_bundle bundle) r in
      elim found [
        | err e ↦ (err e, q)
        | ok manifest ↦ umount_step (install_mounted_bundle args manifest q)
      ]

  -- The part from the checks of the opened bundle on.
  unfoldable pub opened_bundle : InstallArgs → Bundle → Step World (Unit {0})
  opened_bundle args bundle = lift (check_opened args bundle) >> with_bundle args bundle

  -- `args->transaction` is made up where there is none.
  unfoldable pub with_transaction : InstallArgs → Step World InstallArgs
  with_transaction args r = elim args.transaction [
    | some t ↦ (ok args, r)
    | none ↦
        let (t, w) = uuid r.world in
        (ok (record args { transaction = some t }), record r { world = w })
  ]

  -- The part of `do_install_bundle` after the transaction.
  unfoldable pub install_with : InstallArgs → Step World (Unit {0})
  install_with args =
      call external_mount_points >> (act_ok opened (check_bundle args.name) >>= opened_bundle args)

  -- `do_install_bundle`
  unfoldable pub do_install_bundle : InstallArgs → Step World (Unit {0})
  do_install_bundle args = with_transaction args >>= install_with
