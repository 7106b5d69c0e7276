-- ===== src/Install/Slots/Laws.antt =====
-- What `handle_slot_install_plan` does to a property of the actions.
use mathlib.Core.Path.{subst}
use rauc.Install.Select.{Statuses}
use rauc.Prelude.{
  sym, text_eq_refl, ◌≡◌, refl, Bool, true, false, Bool-cases, Option, some, List, ◌∷◌, Text, codes,
  Result, ok, err, inl, inr,
}
use rauc.Slot.{Slot, SlotStatus}
use rauc.Manifest.{Image, Manifest, Handler}
use rauc.Machine.{set_status, Io, SystemConfig, Run, Event, succeeded, wrote, saved, ◌>>=◌, ◌>>◌}
use rauc.Machine.Hoare.{Hoare, Holds, act-Hoare, On, Holds-of_both, >>=-Hoare, >>-Hoare}
use rauc.Mark.{status_load, status_save, status_update}
use rauc.Install.Slots.{
  InstallArgs, update_slot_status, is_up_to_date, pending_status, save_pending, save_as,
  prepare_slot, finish_slot, write_slot, update_slot, checked_slot, handle_slot_install_plan,
}

module _ (io : Io) (config : SystemConfig) (manifest : Manifest) (args : InstallArgs)
    (T : List Event → Type 0)
    (saved_T : (n : Text) (st : SlotStatus) (w : Bool) (t : List Event)
      → T t
      → T (saved n st w ∷ t)) where
  open io use {World}

  pub status_save-Hoare : (s : Slot) → Hoare (On T) (status_save io s) (λ u. On T) (On T)
  unfolding status_save
  status_save-Hoare s r p =
      act-Hoare T (saved s.name (r.statuses s.name)) (io.save_status s (r.statuses s.name)) T
        (saved_T s.name (r.statuses s.name)) r p

  pub save_as-Hoare :
      (status : Text) (s : Slot) (image : Image)
      → Hoare (On T) (save_as io config manifest args status s image) (λ u. On T) (On T)
  unfolding save_as status_update
  save_as-Hoare status s image =
      >>-Hoare (On T) (On T) (λ u. On T) (On T)
        (status_update io s (update_slot_status status manifest image args)) (status_save io s)
        (λ r p. p) (status_save-Hoare s)

  finish_slot-Hoare :
      (s : Slot) (image : Image) (x : Result (Unit {0}))
      → Hoare (On T) (finish_slot io config manifest args s image x) (λ u. On T) (On T)
  unfolding finish_slot
  finish_slot-Hoare s image (ok u) = save_as-Hoare (codes "ok") s image
  finish_slot-Hoare s image (err e) = λ r p.
      Holds-of_both {World = World} (On T)
        (save_as io config manifest args (codes "failed") s image r)
        (save_as-Hoare (codes "failed") s image r p)

  -- What holds of the actions when a slot is about to be written.
  module _ (Ready : Text → List Event → Type 0)
      (wrote_T : (n : Text) (w : Bool) (t : List Event) → Ready n t → T (wrote n w ∷ t))
      (prepare : (s : Slot)
        → Hoare
            (On T)
            (prepare_slot io config manifest args s)
            (λ u. On (Ready s.name))
            (On T)) where
    update_slot-Hoare :
        (s : Slot) (image : Image) (h : Handler) (hook : Option Text)
        → Hoare (On T) (update_slot io config manifest args s image h hook) (λ u. On T) (On T)
    unfolding update_slot status_update write_slot
    update_slot-Hoare s image h hook =
        >>-Hoare (On T) (On (Ready s.name)) (λ u. On T) (On T)
          (prepare_slot io config manifest args s
            >> status_update io s (λ t x. record x { status = some (codes "update") }))
          (write_slot io config manifest args s image h hook
            >>= finish_slot io config manifest args s image)
          (>>-Hoare (On T) (On (Ready s.name)) (λ u. On (Ready s.name)) (On T)
            (prepare_slot io config manifest args s)
            (status_update io s (λ t x. record x { status = some (codes "update") })) (prepare s)
            (λ r p. p))
          (>>=-Hoare (On (Ready s.name)) (λ x. On T) (λ u. On T) (On T)
            (write_slot io config manifest args s image h hook)
            (finish_slot io config manifest args s image) (λ r p. wrote_T s.name _ r.trace p)
            (finish_slot-Hoare s image))

    checked_slot-Hoare :
        (s : Slot) (image : Image) (h : Handler) (hook : Option Text) (still : Bool)
        → Hoare
            (On T)
            (checked_slot io config manifest args s image h hook still)
            (λ u. On T)
            (On T)
    unfolding checked_slot
    checked_slot-Hoare s image h hook true r p = p
    checked_slot-Hoare s image h hook false r p =
        elim (Bool-cases (is_up_to_date s image (r.statuses s.name))) [
          | inl q ↦ rw q (save_as-Hoare (codes "ok") s image r p)
          | inr q ↦ rw q (update_slot-Hoare s image h hook r p)
        ]

    pub handle_slot-Hoare :
        (s : Slot) (image : Image) (h : Handler) (hook : Option Text)
        → Hoare
            (On T)
            (handle_slot_install_plan io config manifest args s image h hook)
            (λ u. On T)
            (On T)
    unfolding handle_slot_install_plan status_load
    handle_slot-Hoare s image h hook =
        >>=-Hoare (On T) (λ still. On T) (λ u. On T) (On T) (status_load io s)
          (checked_slot io config manifest args s image h hook) (λ r p. p)
          (checked_slot-Hoare s image h hook)

set_status_same : (k : Text) (v : SlotStatus) (st : Statuses) → set_status k v st k ≡ v
unfolding set_status
set_status_same k v st = rw (text_eq_refl k) refl

-- Saving, where a success makes `R` from `S` and a failure makes `T`.
status_save-Hoare_split :
    (io : Io) (s : Slot) (S R T : Run io.World → Type 0)
    → ((r : Run io.World) (w : io.World)
        → S r
        → R (record r { world = w; trace = saved s.name (r.statuses s.name) true ∷ r.trace }))
    → ((r : Run io.World) (w : io.World)
        → S r
        → T (record r { world = w; trace = saved s.name (r.statuses s.name) false ∷ r.trace }))
    → Hoare S (status_save io s) (λ u. R) T
unfolding status_save
status_save-Hoare_split io s S R T kept lost r p = go (io.save_status s (r.statuses s.name) r.world)
  where
    go :
        (x : Result (Unit {0}) × io.World)
        → Holds
            (λ u. R)
            T
            (
              x.0,
              record r {
                world = x.1;
                trace = saved s.name (r.statuses s.name) (succeeded x.0) ∷ r.trace;
              },
            )
    go (ok u, w) = kept r w p
    go (err e, w) = lost r w p

module _ (io : Io) (config : SystemConfig) (manifest : Manifest) (args : InstallArgs)
    (S T : List Event → Type 0) where
  -- Saving a slot as pending makes `R` from `S` where the save succeeds, and `T` where it fails.
  pub save_pending-Hoare :
      (R : List Event → Type 0) (s : Slot)
      → ((old : SlotStatus) (t : List Event) → S t → R (saved s.name (pending_status old) true ∷ t))
      → ((old : SlotStatus) (t : List Event)
          → S t
          → T (saved s.name (pending_status old) false ∷ t))
      → Hoare (On S) (save_pending io config manifest args s) (λ u. On R) (On T)
  unfolding save_pending status_update
  save_pending-Hoare R s kept lost r p =
      let old = r.statuses s.name in
      let same = sym (set_status_same s.name (pending_status old) r.statuses) in
      status_save-Hoare_split io s (λ q. (q.statuses s.name ≡ pending_status old) × S q.trace)
        (On R) (On T)
        (λ q w h. subst (λ v. R (saved s.name v true ∷ q.trace)) (sym h.0) (kept old q.trace h.1))
        (λ q w h. subst (λ v. T (saved s.name v false ∷ q.trace)) (sym h.0) (lost old q.trace h.1))
        _ (sym same, p)

  -- Preparing a slot. Without a central status file nothing happens.
  pub prepare-Hoare :
      (R : List Event → Type 0) (s : Slot)
      → (config.per_slot ≡ true → (t : List Event) → S t → R t)
      → (config.per_slot ≡ false
          → (old : SlotStatus) (t : List Event) → S t
          → R (saved s.name (pending_status old) true ∷ t))
      → (config.per_slot ≡ false
          → (old : SlotStatus) (t : List Event) → S t
          → T (saved s.name (pending_status old) false ∷ t))
      → Hoare (On S) (prepare_slot io config manifest args s) (λ u. On R) (On T)
  unfolding prepare_slot save_pending
  prepare-Hoare R s free kept lost r p = elim (Bool-cases config.per_slot) [
    | inl q ↦ rw q (free q r.trace p)
    | inr q ↦ rw q (save_pending-Hoare R s (kept q) (lost q) r p)
  ]
