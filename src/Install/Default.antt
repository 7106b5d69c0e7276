-- ===== src/Install/Default.antt =====
-- src/install.c: `launch_and_wait_default_handler`.
pub mod Keeps
pub mod Laws
pub mod Order
pub mod Pending
mod Tests
use rauc.Prelude.{
  ℕ, Bool, true, false, Option, none, some, List, [], ◌∷◌, Text, if◌then◌else◌, Result, ok, err,
  Error, aborted, install_mark_nonbootable,
}
use rauc.Slot.{Slot}
use rauc.Manifest.{Image, Manifest}
use rauc.Machine.{
  Io, SystemConfig, Run, Step, Event, stored, call, act, return, fail, lift, with_error, ◌>>=◌,
  ◌>>◌,
}
use rauc.Mark.{mark_bad, mark_active}
use rauc.Install.Plans.{
  Plan, Target, Repo, to_slot, to_repo, get_all_manifest_slot_classes, plan_classes, make_plans,
  pre_install_checks, get_boot_mark_slot,
}
use rauc.Install.Slots.{InstallArgs, handle_slot_install_plan}

module _ (io : Io) (config : SystemConfig) (manifest : Manifest) (args : InstallArgs) where
  open io use {World, exists, artifact_install, artifacts_init, artifacts_prune}

  -- `r_install_make_plans` in its place: the repositories are scanned after the plans for slots.
  unfoldable pub make_plans_step : List (Text × Slot) → Step World (List Plan)
  make_plans_step group =
      lift (
        plan_classes config.system_variant group manifest.images
          (get_all_manifest_slot_classes manifest))
      >>= (λ slot_plans.
          call artifacts_init
          >> lift (make_plans config.system_variant group config.artifact_repos (ok tt) manifest))

  -- One plan: `handle_slot_install_plan` or `handle_artifact_install_plan`.
  unfoldable pub handle_plan : Plan → Step World (Unit {0})
  handle_plan p = elim p.target [
    | to_slot s h ↦ handle_slot_install_plan io config manifest args s p.image h manifest.hook_name
    | to_repo r ↦ act (λ w. stored r.name) (artifact_install manifest p.image r)
  ]

  unfoldable pub handle_plans : List Plan → Step World (Unit {0})
  handle_plans [] = return tt
  handle_plans (p ∷ ps) = handle_plan p >> handle_plans ps

  unfoldable pub mark_target_bad : Option Slot → Step World (Unit {0})
  mark_target_bad none = return tt
  mark_target_bad (some b) = with_error install_mark_nonbootable (mark_bad io b)

  unfoldable pub activate_target : Option Slot → Step World (Unit {0})
  activate_target none = return tt
  activate_target (some b) = if config.activate_installed then mark_active io b else return tt

  -- `pre_install_checks` on the files of the moment.
  unfoldable pub checks_step : List Plan → Step World (Unit {0})
  checks_step ps r = (pre_install_checks (exists r.world) ps, r)

  -- The part of the handler in which the slots are written.
  unfoldable pub install_plans : List Plan → Option Slot → Step World (Unit {0})
  install_plans ps target =
      mark_target_bad target
      >> (handle_plans ps >> (call artifacts_prune >> activate_target target))

  -- What is done with the plans that were made.
  unfoldable pub run_plans : List Plan → Step World (Unit {0})
  run_plans ps = elim (get_boot_mark_slot ps) [
    | none ↦ fail aborted
    | some target ↦ checks_step ps >> install_plans ps target
  ]

  -- `launch_and_wait_default_handler`
  unfoldable pub default_handler : List (Text × Slot) → Step World (Unit {0})
  default_handler group = make_plans_step group >>= run_plans
