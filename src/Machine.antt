-- ===== src/Machine.antt =====
-- What an installation acts on: the rest of the system behind an interface, the status of the
-- slots in memory, and the sequence of the actions that were taken.
pub mod Hoare
use rauc.Prelude.{
  ℕ, Bool, true, false, Option, none, some, List, [], ◌∷◌, Text, text_eq, if◌then◌else◌, Result, ok,
  err, Error, aborted,
}
use rauc.Slot.{Slot, Slots, SlotStatus}
use rauc.Manifest.{Image, Manifest, Handler}
use rauc.Install.Select.{Statuses}
use rauc.Install.Plans.{Repo}

-- The members of `RaucConfig` that mark.c and install.c read.
pub record SystemConfig : Type 0 where
  pub slots : Slots
  pub system_variant : Option Text
  pub system_compatible : Option Text
  pub system_min_bundle_version : Option Text
  pub per_slot : Bool
  pub activate_installed : Bool
  pub prevent_late_fallback : Bool
  pub artifact_repos : Text → Option Repo
  pub preinstall_handler : Option Text
  pub postinstall_handler : Option Text

-- `RaucBundle` after `check_bundle`: only a plain bundle has no manifest yet.
pub record Bundle : Type 0 where
  pub manifest : Option Manifest
  pub is_crypt : Bool
  pub was_encrypted : Bool

-- The parts of the program and of the system that mark.c and install.c call, each on a world
-- that it may change: `r_slot_status_load` (the statuses after it, and whether the slot is still
-- mounted), `r_slot_status_save`, `r_slot_move_checksum_data_directory`, `r_boot_set_state`,
-- `r_boot_set_primary`, the slot handlers, `handle_artifact_install_plan`, `r_artifacts_init` with
-- `r_artifacts_prune`, and what `do_install_bundle` runs. `now` is `g_date_time_new_now_utc` and `uuid` is
-- `g_uuid_string_random`.
pub record Io : Type 1 where
  pub World : Type 0
  pub now : World → ℕ
  pub uuid : World → Text × World
  pub exists : World → Text → Bool
  pub load_status : Slot → Statuses → World → (Statuses × Bool) × World
  pub save_status : Slot → SlotStatus → World → Result (Unit {0}) × World
  pub move_data : Slot → Option Text → World → Result (Unit {0}) × World
  pub boot_set_state : Slot → Bool → World → Result (Unit {0}) × World
  pub boot_set_primary : Slot → World → Result (Unit {0}) × World
  pub slot_handler : Handler → Image → Slot → Option Text → World → Result (Unit {0}) × World
  pub artifact_install : Manifest → Image → Repo → World → Result (Unit {0}) × World
  pub artifacts_init : World → Result (Unit {0}) × World
  pub artifacts_prune : World → Result (Unit {0}) × World
  pub external_mount_points : World → Result (Unit {0}) × World
  pub check_bundle : Text → World → Result Bundle × World
  pub mount_bundle : Bundle → World → Result Manifest × World
  pub umount_bundle : World → World
  pub bundle_hook : Manifest → World → Result (Unit {0}) × World
  pub system_handler : Text → World → Result (Unit {0}) × World
  pub custom_handler : Manifest → World → Result (Unit {0}) × World

-- The actions that the order of an installation is about. A state or a primary slot is set when
-- the boot loader has reported success, and a bundle is opened, mounted or passed by its hook when
-- that succeeded. Saving a status and writing a slot are recorded with whether they succeeded,
-- installing an artifact and handing over to a custom handler whatever they returned.
pub data Event : Type 0 where
  state_set : Text → Bool → Event
  primary_set : Text → Event
  saved : Text → SlotStatus → Bool → Event
  wrote : Text → Bool → Event
  stored : Text → Event
  opened : Bundle → Event
  mounted : Bundle → Manifest → Event
  hook_passed : Manifest → Event
  handed_over unmounted : Event

-- The trace has the last action first.
pub record Run (World : Type 0) : Type 0 where
  pub world : World
  pub statuses : Statuses
  pub trace : List Event

-- A step of a function that may fail.
abbrev pub Step : Type 0 → Type 0 → Type 0
Step World A = Run World → Result A × Run World

unfoldable pub set_status : Text → SlotStatus → Statuses → Statuses
set_status k s st = λ n. if text_eq n k then s else st n

abbrev pub succeeded : {A : Type 0} → Result A → Bool
succeeded (ok a) = true
succeeded (err e) = false

module _ {World : Type 0} where
  infixl 5 ◌>>=◌ ◌>>◌
  abbrev pub ◌>>=◌ : {A B : Type 0} → Step World A → (A → Step World B) → Step World B
  (m >>= f) r = elim (m r).0 [ ok a ↦ f a (m r).1 | err e ↦ (err e, (m r).1) ]

  abbrev pub ◌>>◌ : {B : Type 0} → Step World (Unit {0}) → Step World B → Step World B
  (m >> k) r = elim (m r).0 [ ok a ↦ k (m r).1 | err e ↦ (err e, (m r).1) ]

  abbrev pub return : {A : Type 0} → A → Step World A
  return a r = (ok a, r)

  abbrev pub fail : {A : Type 0} → Error → Step World A
  fail e r = (err e, r)

  abbrev pub lift : {A : Type 0} → Result A → Step World A
  lift x r = (x, r)

  -- The same step with another error: `g_set_error` after a failure.
  abbrev pub with_error : {A : Type 0} → Error → Step World A → Step World A
  with_error e m r = (elim (m r).0 [ ok a ↦ ok a | err x ↦ err e ], (m r).1)

  -- An error that is only logged.
  abbrev pub ignore_error : Step World (Unit {0}) → Step World (Unit {0})
  ignore_error m r = (ok tt, (m r).1)

  -- A call of the rest of the system.
  abbrev pub call : {A : Type 0} → (World → Result A × World) → Step World A
  call f r = let (x, w) = f r.world in (x, record r { world = w })

  -- A call that is an action, which may say whether it succeeded.
  abbrev pub act : {A : Type 0} → (Bool → Event) → (World → Result A × World) → Step World A
  act e f r =
      let (x, w) = f r.world in (x, record r { world = w; trace = e (succeeded x) ∷ r.trace })

  -- A call that is an action when it succeeds, which tells its value.
  abbrev pub act_ok : {A : Type 0} → (A → Event) → (World → Result A × World) → Step World A
  act_ok e f r =
      let (x, w) = f r.world in
      (x, record r { world = w; trace = elim x [ ok a ↦ e a ∷ r.trace | err y ↦ r.trace ] })
