-- ===== src/Install/Slots/Outcome.antt =====
-- What `handle_slot_install_plan` leaves in the status of the slot.
use mathlib.Core.Path.{subst}
use rauc.Prelude.{
  ℕ, suc, ◌≡◌, ◌⊎◌, refl, ◌∙◌, Bool, true, false, Bool-cases, Option, some, List, [], ◌∷◌, Text,
  codes, text_eq_refl, Result, ok, err, inl, inr,
}
use rauc.Slot.{Slot, SlotStatus, clear_status}
use rauc.Manifest.{Image, Manifest, Handler}
use rauc.Machine.{
  Io, SystemConfig, Run, Event, succeeded, wrote, saved, stored, primary_set, state_set, opened,
  mounted, hook_passed, handed_over, unmounted, set_status, ◌>>=◌, ◌>>◌,
}
use rauc.Machine.Hoare.{Hoare, Holds, Hoare-error, >>=-Hoare, >>-Hoare}
use rauc.Mark.{status_load, status_save, status_update}
use rauc.Install.Slots.{
  InstallArgs, update_slot_status, is_up_to_date, pending_status, save_as, prepare_slot,
  finish_slot, write_slot, update_slot, checked_slot, handle_slot_install_plan,
}
use rauc.Install.Slots.Laws.{prepare-Hoare}

-- The number of writes of slots.
unfoldable pub writes : List Event → ℕ
writes [] = 0
writes (wrote n w ∷ t) = suc (writes t)
writes (state_set n good ∷ t) = writes t
writes (primary_set n ∷ t) = writes t
writes (saved n st w ∷ t) = writes t
writes (stored n ∷ t) = writes t
writes (opened x ∷ t) = writes t
writes (mounted x m ∷ t) = writes t
writes (hook_passed m ∷ t) = writes t
writes (handed_over ∷ t) = writes t
writes (unmounted ∷ t) = writes t

saved_writes :
    (n : Text) (st : SlotStatus) (w : Bool) (t : List Event) → writes (saved n st w ∷ t) ≡ writes t
unfolding writes
saved_writes n st w t = refl

-- The last action, after `before`, was to save this status of the slot: the word, the checksum of
-- the image and the transaction of the installation. `worked` tells whether saving succeeded.
pub record Recorded (status : Text) (worked : Bool) (s : Slot) (image : Image) (args : InstallArgs)
    (before : List Event) {World : Type 0} (r : Run World) : Type 0 where
  pub last : r.trace ≡ saved s.name (r.statuses s.name) worked ∷ before
  pub word : (r.statuses s.name).status ≡ some status
  pub sum : (r.statuses s.name).checksum ≡ image.checksum
  pub txn : (r.statuses s.name).installed_txn ≡ args.transaction

module _ (s : Slot) (image : Image) (args : InstallArgs) (loaded : SlotStatus) (k : ℕ) where
  -- The slot had the image already, and nothing was written.
  abbrev Skipped : List Event → Type 0
  Skipped t = (is_up_to_date s image loaded ≡ true) × (writes t ≡ k)

  -- The slot did not have the image, and the last action was its only write.
  abbrev Wrote : Bool → List Event → Type 0
  Wrote worked t =
      (is_up_to_date s image loaded ≡ false)
      × ((earlier : List Event) × (t ≡ wrote s.name worked ∷ earlier) × (writes earlier ≡ k))

  -- The slot has the image, and "ok" was the last status to be saved.
  abbrev pub Installed : Bool → {World : Type 0} → Run World → Type 0
  Installed worked r =
      (before : List Event) × Recorded (codes "ok") worked s image args before r
      × (Skipped before ⊎ Wrote true before)

  -- How a slot plan can fail: before it writes, at the write, or at saving "ok".
  abbrev pub Failed : {World : Type 0} → Run World → Type 0
  Failed r =
      (writes r.trace ≡ k)
      ⊎ (((before : List Event) × (worked : Bool) × Recorded (codes "failed") worked s image args
              before r
            × Wrote false before)
          ⊎ Installed false r)

module _ (io : Io) (config : SystemConfig) (manifest : Manifest) (args : InstallArgs) (s : Slot)
    (image : Image) where
  open io use {World, now}

  save_as-Recorded :
      (status : Text) (r : Run World)
      → Recorded status
          (succeeded (save_as io config manifest args status s image r).0)
          s
          image
          args
          r.trace
          (save_as io config manifest args status s image r).1
  unfolding save_as status_update status_save update_slot_status clear_status set_status
  save_as-Recorded status r = record {
    last = refl;
    word = rw (text_eq_refl s.name) refl;
    sum = rw (text_eq_refl s.name) refl;
    txn = rw (text_eq_refl s.name) refl;
  }

  module _ (loaded : SlotStatus) (k : ℕ) where
    save_ok-Hoare :
        Hoare
          (λ r. Skipped s image args loaded k r.trace ⊎ Wrote s image args loaded k true r.trace)
          (save_as io config manifest args (codes "ok") s image)
          (λ u. Installed s image args loaded k true)
          (Failed s image args loaded k)
    save_ok-Hoare r p =
        go (save_as io config manifest args (codes "ok") s image r)
          (save_as-Recorded (codes "ok") r)
      where
        go :
            (x : Result (Unit {0}) × Run World)
            → Recorded (codes "ok") (succeeded x.0) s image args r.trace x.1
            → Holds (λ u. Installed s image args loaded k true) (Failed s image args loaded k) x
        go (ok u, q) h = (r.trace, h, p)
        go (err e, q) h = inr (inr (r.trace, h, p))

    finish_slot-Recorded :
        (x : Result (Unit {0}))
        → Hoare
            (λ r. Wrote s image args loaded k (succeeded x) r.trace)
            (finish_slot io config manifest args s image x)
            (λ u. Installed s image args loaded k true)
            (Failed s image args loaded k)
    unfolding finish_slot
    finish_slot-Recorded (ok u) r p = save_ok-Hoare r (inr p)
    finish_slot-Recorded (err e) r p =
        inr (inl (r.trace, _, save_as-Recorded (codes "failed") r, p))

    update_slot-Recorded :
        (h : Handler) (hook : Option Text)
        → is_up_to_date s image loaded ≡ false
        → Hoare
            (λ r. writes r.trace ≡ k)
            (update_slot io config manifest args s image h hook)
            (λ u. Installed s image args loaded k true)
            (Failed s image args loaded k)
    unfolding update_slot status_update write_slot
    update_slot-Recorded h hook stale =
        >>-Hoare N N (λ u. Installed s image args loaded k true) (Failed s image args loaded k)
          (prepare_slot io config manifest args s
            >> status_update io s (λ t x. record x { status = some (codes "update") }))
          (write_slot io config manifest args s image h hook
            >>= finish_slot io config manifest args s image)
          (>>-Hoare N N (λ u. N) (Failed s image args loaded k)
            (prepare_slot io config manifest args s)
            (status_update io s (λ t x. record x { status = some (codes "update") }))
            (Hoare-error N (λ u. N) N (Failed s image args loaded k)
              (prepare_slot io config manifest args s) (λ r h. inl h)
              (prepare-Hoare io config manifest args C C C s (λ e t q. q)
                (λ e old t q. saved_writes s.name (pending_status old) true t ∙ q)
                (λ e old t q. saved_writes s.name (pending_status old) false t ∙ q)))
            (λ r p. p))
          (>>=-Hoare N (λ x r. Wrote s image args loaded k (succeeded x) r.trace)
            (λ u. Installed s image args loaded k true) (Failed s image args loaded k)
            (write_slot io config manifest args s image h hook)
            (finish_slot io config manifest args s image) (λ r p. (stale, (r.trace, refl, p)))
            finish_slot-Recorded)
      where
        C : List Event → Type 0
        C t = writes t ≡ k

        N : Run World → Type 0
        N r = writes r.trace ≡ k

    checked_slot-Recorded :
        (h : Handler) (hook : Option Text) (still : Bool)
        → Hoare
            (λ r. (writes r.trace ≡ k) × (r.statuses s.name ≡ loaded))
            (checked_slot io config manifest args s image h hook still)
            (λ u. Installed s image args loaded k true)
            (Failed s image args loaded k)
    unfolding checked_slot
    checked_slot-Recorded h hook true r p = inl p.0
    checked_slot-Recorded h hook false r p =
        elim (Bool-cases (is_up_to_date s image (r.statuses s.name))) [
          | inl q ↦
              rw q (save_ok-Hoare r (inl (subst (λ x. is_up_to_date s image x ≡ true) p.1 q, p.0)))
          | inr q ↦ rw q (
              update_slot-Recorded h hook (subst (λ x. is_up_to_date s image x ≡ false) p.1 q) r
                p.0)
        ]

  -- A slot plan that succeeds has saved "ok" last, with success, with the checksum of the image and
  -- the transaction. Right before, it wrote the slot with success, as its only write; or it wrote
  -- nothing, where the slot had the image already. One that fails has written nothing, or it has
  -- tried to save "failed" right after its only write failed, or saving "ok" failed after a write
  -- that succeeded or was not needed.
  pub handle_slot_install_plan-Recorded :
      (h : Handler) (hook : Option Text) (r : Run World)
      → Holds
          (λ u.
            Installed s image args
              ((io.load_status s r.statuses r.world).0.0 s.name)
              (writes r.trace)
              true)
          (Failed s image args ((io.load_status s r.statuses r.world).0.0 s.name) (writes r.trace))
          (handle_slot_install_plan io config manifest args s image h hook r)
  unfolding handle_slot_install_plan status_load
  handle_slot_install_plan-Recorded h hook r =
      let found = io.load_status s r.statuses r.world in
      checked_slot-Recorded (found.0.0 s.name) (writes r.trace) h hook found.0.1
        (record r { world = found.1; statuses = found.0.0 }) (refl, refl)
