-- ===== src/Install/Default/Pending.antt =====
-- The status on disk of a slot that is written, with a central status file.
use rauc.Prelude.{◌≡◌, refl, true, false, none, some, List, [], ◌∷◌, Text, codes}
use rauc.Manifest.{Manifest}
use rauc.Machine.{
  Io, SystemConfig, Run, Event, wrote, saved, stored, primary_set, state_set, opened, mounted,
  hook_passed, handed_over, unmounted,
}
use rauc.Machine.Hoare.{On, Holds-of_both}
use rauc.Install.Plans.{Plan}
use rauc.Install.Slots.{InstallArgs}
use rauc.Install.Slots.Laws.{prepare-Hoare}
use rauc.Install.Default.{handle_plans}
use rauc.Install.Default.Laws.{handle_plans-Hoare}

-- The last action was to save the slot as pending, without a checksum, and saving succeeded.
abbrev SavedPending : Text → List Event → Type 0
SavedPending n [] = ⊥
SavedPending n (saved m st false ∷ t) = ⊥
SavedPending n (saved m st true ∷ t) =
    (m ≡ n) × (st.status ≡ some (codes "pending")) × (st.checksum.digest ≡ none)
SavedPending n (state_set m good ∷ t) = ⊥
SavedPending n (primary_set m ∷ t) = ⊥
SavedPending n (wrote m w ∷ t) = ⊥
SavedPending n (stored m ∷ t) = ⊥
SavedPending n (opened x ∷ t) = ⊥
SavedPending n (mounted x m ∷ t) = ⊥
SavedPending n (hook_passed m ∷ t) = ⊥
SavedPending n (handed_over ∷ t) = ⊥
SavedPending n (unmounted ∷ t) = ⊥

-- Every slot was saved as pending right before it was written.
abbrev pub WritesPending : List Event → Type 0
WritesPending [] = Unit
WritesPending (wrote n w ∷ t) = SavedPending n t × WritesPending t
WritesPending (state_set n good ∷ t) = WritesPending t
WritesPending (primary_set n ∷ t) = WritesPending t
WritesPending (saved n st w ∷ t) = WritesPending t
WritesPending (stored n ∷ t) = WritesPending t
WritesPending (opened x ∷ t) = WritesPending t
WritesPending (mounted x m ∷ t) = WritesPending t
WritesPending (hook_passed m ∷ t) = WritesPending t
WritesPending (handed_over ∷ t) = WritesPending t
WritesPending (unmounted ∷ t) = WritesPending t

-- With a central status file, carrying out plans writes a slot only right after its status was
-- saved, with success, as pending and without a digest.
pub handle_plans-WritesPending :
    (io : Io) (config : SystemConfig) (manifest : Manifest) (args : InstallArgs) (ps : List Plan)
    (r : Run io.World)
    → config.per_slot ≡ false
    → WritesPending r.trace
    → WritesPending (handle_plans io config manifest args ps r).1.trace
handle_plans-WritesPending io config manifest args ps r central h =
    Holds-of_both (On WritesPending) (handle_plans io config manifest args ps r) (
      handle_plans-Hoare io config manifest args WritesPending (λ n st w t q. q) (λ n t q. q)
        (λ n t. SavedPending n t × WritesPending t) (λ n w t q. q)
        (λ s.
          prepare-Hoare io config manifest args WritesPending WritesPending
            (λ t. SavedPending s.name t × WritesPending t) s (λ e t q. absurd (cc (e, central)))
            (λ e old t q. ((refl, refl, refl), q)) (λ e old t q. q))
        ps r h)
