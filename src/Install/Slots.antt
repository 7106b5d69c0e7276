-- ===== src/Install/Slots.antt =====
-- src/install.c: `update_slot_status` and `handle_slot_install_plan`.
pub mod Laws
pub mod Outcome
mod Tests
use rauc.Prelude.{
  ℕ, ◌+◌, Bool, true, false, not, ◌&&◌, Option, none, some, List, [], ◌∷◌, Text, codes, strcmp0_eq,
  if◌then◌else◌, Result, ok, err, Error, install_mounted,
}
use rauc.Slot.{Slot, SlotStatus, Checksum, clear_status}
use rauc.Manifest.{Image, Manifest, Handler}
use rauc.Machine.{
  Io, SystemConfig, Run, Step, Event, wrote, call, act, return, fail, lift, ignore_error, ◌>>=◌,
  ◌>>◌,
}
use rauc.Mark.{status_load, status_save, status_update}

-- `RaucInstallArgs`, with the members that an installation reads.
pub record InstallArgs : Type 0 where
  pub name : Text
  pub transaction : Option Text
  pub ignore_compatible : Bool
  pub ignore_version_limit : Bool
  pub require_manifest_hash : Option Text

-- `update_slot_status` at the time `t`
unfoldable pub update_slot_status :
    Text → Manifest → Image → InstallArgs → ℕ → SlotStatus → SlotStatus
update_slot_status status manifest image args t s = record (clear_status s) {
  bundle_compatible = manifest.update_compatible;
  bundle_version = manifest.update_version;
  bundle_description = manifest.update_description;
  bundle_build = manifest.update_build;
  bundle_hash = manifest.hash;
  status = some status;
  checksum = image.checksum;
  installed_txn = args.transaction;
  installed_timestamp = some t;
  installed_count = s.installed_count + 1;
}

-- The test for a slot that has the image already.
unfoldable pub is_up_to_date : Slot → Image → SlotStatus → Bool
is_up_to_date s image st =
    not s.install_same
    && strcmp0_eq st.status (some (codes "ok"))
    && strcmp0_eq image.checksum.digest st.checksum.digest

-- What makes the status of a slot look invalid while it is written.
abbrev pub pending_status : SlotStatus → SlotStatus
pending_status st = record st {
  status = some (codes "pending");
  checksum = record { digest = none; size = 0 };
}

module _ (io : Io) (config : SystemConfig) (manifest : Manifest) (args : InstallArgs) where
  open io use {World, now, move_data, slot_handler}

  -- `update_slot_status`, then `r_slot_status_save`
  unfoldable pub save_as : Text → Slot → Image → Step World (Unit {0})
  save_as status s image =
      status_update io s (update_slot_status status manifest image args) >> status_save io s

  -- The slot is saved as pending. A data directory that cannot be moved is only logged.
  unfoldable pub save_pending : Slot → Step World (Unit {0})
  save_pending s r =
      let old = (r.statuses s.name).checksum.digest in
      (status_update io s (λ t x. pending_status x)
          >> ignore_error (call (move_data s old))
          >> status_save io s)
        r

  -- The part before the slot is written, which matters for a central status file.
  unfoldable pub prepare_slot : Slot → Step World (Unit {0})
  prepare_slot s = if config.per_slot then return tt else save_pending s

  -- What follows the handler of the slot.
  unfoldable pub finish_slot : Slot → Image → Result (Unit {0}) → Step World (Unit {0})
  finish_slot s image (ok u) = save_as (codes "ok") s image
  finish_slot s image (err e) = ignore_error (save_as (codes "failed") s image) >> fail e

  -- The handler, whose result is looked at afterwards.
  unfoldable pub write_slot : Slot → Image → Handler → Option Text → Step World (Result (Unit {0}))
  write_slot s image h hook r =
      let (x, r') = act (wrote s.name) (slot_handler h image s hook) r in (ok x, r')

  -- The part after the checks.
  unfoldable pub update_slot : Slot → Image → Handler → Option Text → Step World (Unit {0})
  update_slot s image h hook =
      prepare_slot s
      >> status_update io s (λ t x. record x { status = some (codes "update") })
      >> (write_slot s image h hook >>= finish_slot s image)

  -- What follows the loading of the status; `still` tells that the slot is left mounted.
  unfoldable pub checked_slot : Slot → Image → Handler → Option Text → Bool → Step World (Unit {0})
  checked_slot s image h hook still r =
      if still
      then (err install_mounted, r)
      else if is_up_to_date s image (r.statuses s.name)
      then save_as (codes "ok") s image r
      else update_slot s image h hook r

  -- `handle_slot_install_plan`
  unfoldable pub handle_slot_install_plan :
      Slot → Image → Handler → Option Text → Step World (Unit {0})
  handle_slot_install_plan s image h hook = status_load io s >>= checked_slot s image h hook
