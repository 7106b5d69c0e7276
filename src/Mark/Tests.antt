-- ===== src/Mark/Tests.antt =====
-- Marking on a small system.
use rauc.Prelude.{codes, ℕ, false, ◌≡◌, ◌≢◌, refl, [], ◌∷◌, text_eq, All}
use rauc.Machine.Hoare.{Holds}
use rauc.Install.Default.Order.{bootable}
use rauc.Mark.Order.{mark_run-bad_other}
use rauc.Samples.{working, system_config, start, system, rootfs_a, rootfs_b}
use rauc.Slot.{get_booted}
use rauc.Mark.{mark_run, get_slots_by_identifier, other_slots}
use rauc.Mark.Laws.{IsOther, get_slots_by_identifier-IsOther}

get_slots_by_identifier-IsOther_example :
    All (IsOther rootfs_a) (rootfs_b ∷ []) × ((rootfs_b ∷ []) ≢ [])
unfolding get_booted get_slots_by_identifier other_slots text_eq
get_slots_by_identifier-IsOther_example =
    get_slots_by_identifier-IsOther system rootfs_a (rootfs_b ∷ []) refl refl

mark_run-bad_other_example :
    Holds {World = ℕ}
      (λ n s. All (λ x. bootable x.name s.trace ≡ false) (rootfs_b ∷ []))
      (λ s. Unit)
      (mark_run working system_config (codes "bad") (codes "other") start)
    × (bootable rootfs_a.name
          (mark_run working system_config (codes "bad") (codes "other") start).1.trace
        ≡ bootable rootfs_a.name start.trace)
unfolding get_booted get_slots_by_identifier other_slots text_eq
mark_run-bad_other_example =
    mark_run-bad_other working system_config rootfs_a (rootfs_b ∷ []) start refl refl
