-- ===== src/Install/Default/Order.antt =====
-- The order of marking, writing and activating in an installation.
use rauc.Prelude.{
  ◌≡◌, ◌⊎◌, refl, sym, ◌∙◌, Bool, true, false, some, List, [], ◌∷◌, Text, text_eq, text_eq_refl,
  if◌then◌else◌, Result, ok, err, inl, inr,
}
use rauc.Slot.{Slot, SlotStatus}
use rauc.Manifest.{Manifest}
use rauc.Machine.{
  Io, SystemConfig, Run, Event, wrote, saved, stored, primary_set, state_set, opened, mounted,
  hook_passed, handed_over, unmounted,
}
use rauc.Machine.Hoare.{Holds, On}
use rauc.Install.Plans.{Plan, get_boot_mark_slot}
use rauc.Install.Slots.{InstallArgs, pending_status}
use rauc.Install.Slots.Laws.{prepare-Hoare}
use rauc.Install.Default.{make_plans_step, default_handler}
use rauc.Install.Default.Laws.{default_handler-Hoare}

-- Whether the boot loader may start a slot, as the actions so far have told it.
unfoldable pub bootable : Text → List Event → Bool
bootable b [] = true
bootable b (state_set n good ∷ t) = if text_eq n b then good else bootable b t
bootable b (primary_set n ∷ t) = if text_eq n b then true else bootable b t
bootable b (saved n st w ∷ t) = bootable b t
bootable b (wrote n w ∷ t) = bootable b t
bootable b (stored n ∷ t) = bootable b t
bootable b (opened x ∷ t) = bootable b t
bootable b (mounted x m ∷ t) = bootable b t
bootable b (hook_passed m ∷ t) = bootable b t
bootable b (handed_over ∷ t) = bootable b t
bootable b (unmounted ∷ t) = bootable b t

-- Every write of a slot happened while the slot `b` could not be booted.
abbrev pub WritesOff : Text → List Event → Type 0
WritesOff b [] = Unit
WritesOff b (state_set n good ∷ t) = WritesOff b t
WritesOff b (primary_set n ∷ t) = WritesOff b t
WritesOff b (saved n st w ∷ t) = WritesOff b t
WritesOff b (wrote n w ∷ t) = (bootable b t ≡ false) × WritesOff b t
WritesOff b (stored n ∷ t) = WritesOff b t
WritesOff b (opened x ∷ t) = WritesOff b t
WritesOff b (mounted x m ∷ t) = WritesOff b t
WritesOff b (hook_passed m ∷ t) = WritesOff b t
WritesOff b (handed_over ∷ t) = WritesOff b t
WritesOff b (unmounted ∷ t) = WritesOff b t

-- The target is off, and so it was at every write.
abbrev Off : Text → List Event → Type 0
Off b t = (bootable b t ≡ false) × WritesOff b t

saved-Off :
    (b n : Text) (st : SlotStatus) (w : Bool) (t : List Event) → Off b t → Off b (saved n st w ∷ t)
unfolding bootable
saved-Off b n st w t h = h

stored-Off : (b n : Text) (t : List Event) → Off b t → Off b (stored n ∷ t)
unfolding bootable
stored-Off b n t h = h

wrote-Off : (b n : Text) (w : Bool) (t : List Event) → Off b t → Off b (wrote n w ∷ t)
unfolding bootable
wrote-Off b n w t h = (h.0, h)

saved_bootable :
    (b n : Text) (st : SlotStatus) (w : Bool) (t : List Event)
    → bootable b (saved n st w ∷ t) ≡ bootable b t
unfolding bootable
saved_bootable b n st w t = refl

stored_bootable : (b n : Text) (t : List Event) → bootable b (stored n ∷ t) ≡ bootable b t
unfolding bootable
stored_bootable b n t = refl

wrote_bootable :
    (b n : Text) (w : Bool) (t : List Event) → bootable b (wrote n w ∷ t) ≡ bootable b t
unfolding bootable
wrote_bootable b n w t = refl

pub bad_bootable : (b : Text) (t : List Event) → bootable b (state_set b false ∷ t) ≡ false
unfolding bootable
bad_bootable b t = rw (text_eq_refl b) refl

primary_bootable : (b : Text) (t : List Event) → bootable b (primary_set b ∷ t) ≡ true
unfolding bootable
primary_bootable b t = rw (text_eq_refl b) refl

module _ (io : Io) (config : SystemConfig) (manifest : Manifest) (args : InstallArgs)
    (group : List (Text × Slot)) (ps : List Plan) (b : Slot) (r : Run io.World)
    (made : (make_plans_step io config manifest args group r).0 ≡ ok ps)
    (marked : get_boot_mark_slot ps ≡ some (some b)) where
  -- Where the plans that the default handler makes have a root slot to mark, every write of a
  -- slot happens while that root slot cannot be booted: it was marked bad before the write, and
  -- was not made good or primary in between. This holds whether the installation succeeds or not.
  pub default_handler-WritesOff :
      WritesOff b.name r.trace
      → WritesOff b.name (default_handler io config manifest args group r).1.trace
  default_handler-WritesOff h = either (default_handler io config manifest args group r) (
      default_handler-Hoare io config manifest args (Off b.name) (WritesOff b.name)
        (WritesOff b.name) (saved-Off b.name) (stored-Off b.name) (λ n. Off b.name)
        (wrote-Off b.name)
        (λ s.
          prepare-Hoare io config manifest args (Off b.name) (Off b.name) (Off b.name) s
            (λ e t q. q) (λ e old t q. saved-Off b.name s.name (pending_status old) true t q)
            (λ e old t q. saved-Off b.name s.name (pending_status old) false t q))
        (λ n st w t q. q) b (λ t q. (bad_bootable b.name t, q)) (λ e t q. q.1) (λ e t q. q.1) group
        ps r made marked h)
    where
      either :
          (x : Result (Unit {0}) × Run io.World)
          → Holds (λ u. On (WritesOff b.name)) (On (λ t. WritesOff b.name t ⊎ Off b.name t)) x
          → WritesOff b.name x.1.trace
      either (ok u, s) q = q
      either (err e, s) (inl q) = q
      either (err e, s) (inr q) = q.1

  -- Where the plans that the default handler makes have a root slot to mark: on success that slot
  -- can be booted just in case the system activates what it installs. On an error either no
  -- action was taken at all, or the slot cannot be booted, so that a partly written system is not
  -- what the boot loader starts.
  pub default_handler-bootable :
      Holds
        (λ u s. bootable b.name s.trace ≡ config.activate_installed)
        (λ s. (s.trace ≡ r.trace) ⊎ (bootable b.name s.trace ≡ false))
        (default_handler io config manifest args group r)
  default_handler-bootable =
      default_handler-Hoare io config manifest args (λ t. bootable b.name t ≡ false)
        (λ t. t ≡ r.trace) (λ t. bootable b.name t ≡ config.activate_installed)
        (λ n st w t q. saved_bootable b.name n st w t ∙ q) (λ n t q. stored_bootable b.name n t ∙ q)
        (λ n t. bootable b.name t ≡ false) (λ n w t q. wrote_bootable b.name n w t ∙ q)
        (λ s.
          prepare-Hoare io config manifest args (λ t. bootable b.name t ≡ false)
            (λ t. bootable b.name t ≡ false) (λ t. bootable b.name t ≡ false) s (λ e t q. q)
            (λ e old t q. saved_bootable b.name s.name (pending_status old) true t ∙ q)
            (λ e old t q. saved_bootable b.name s.name (pending_status old) false t ∙ q))
        (λ n st w t q. saved_bootable b.name n st w t ∙ q) b (λ t q. bad_bootable b.name t)
        (λ e t q. primary_bootable b.name t ∙ sym e) (λ e t q. q ∙ sym e) group ps r made marked
        refl
