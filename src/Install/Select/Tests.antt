-- ===== src/Install/Select/Tests.antt =====
-- The choice of targets on a small system.
use rauc.Prelude.{
  ◌≡◌, refl, false, Option, none, some, [], ◌∷◌, Text, codes, text_eq, strcmp0_eq, All, ok, arith,
}
use rauc.Samples.{system, rootfs_a, rootfs_b, app_a, app_b, empty_status}
use rauc.Slot.{
  Slot, st_inactive, lookup_slot, get_root_classes, get_parent_root, parent_root_loop,
  list_contains, remove_fast,
}
use rauc.Config.Links.{parent_of}
use rauc.Config.Links.Laws.{IsFlat}
use rauc.Install.States.{
  determine_slot_states, find_booted, matches_bootslot, mark_states, state_beside,
}
use rauc.Install.Select.{
  Statuses, select_inactive, select_loop, selected_roots, insert_target, group_loop,
  determine_target_install_group,
}
use rauc.Install.Select.Oldest.{select_inactive-oldest, Precedes}
use rauc.Install.Select.Group.{WellFormed, target_group-inactive}

abbrev real : Text → Option Text
real d = none

abbrev statuses : Statuses
statuses k = record empty_status { installed_timestamp = some 100; status = some (codes "ok") }

determined : determine_slot_states real (some system) (some (codes "A")) ≡ ok system
unfolding determine_slot_states find_booted matches_bootslot mark_states state_beside strcmp0_eq
    text_eq
determined = refl

group_of_system :
    determine_target_install_group false statuses system
    ≡ (codes "rootfs", rootfs_b) ∷ (codes "app", app_b) ∷ []
unfolding determine_target_install_group selected_roots select_inactive select_loop get_root_classes
    remove_fast group_loop insert_target get_parent_root parent_root_loop lookup_slot list_contains
    strcmp0_eq text_eq
group_of_system = refl

flat_root : (s : Slot) → parent_of system s.name ≡ none → IsFlat system s.name
flat_root s h p e = ground arith

flat_child :
    (s : Slot) (r : Text)
    → parent_of system s.name ≡ some r
    → parent_of system r ≡ none
    → IsFlat system s.name
flat_child s r h root p e = ground arith

system-WellFormed : All (WellFormed system) system
unfolding lookup_slot text_eq parent_of
system-WellFormed = (
  record { found = refl; flat = flat_root rootfs_a refl; booted_root = λ e. refl },
  (
    record {
      found = refl;
      flat = flat_child app_a (codes "rootfs.0") refl refl;
      booted_root = λ e. cc;
    },
    (
      record { found = refl; flat = flat_root rootfs_b refl; booted_root = λ e. refl },
      (
        record {
          found = refl;
          flat = flat_child app_b (codes "rootfs.1") refl refl;
          booted_root = λ e. cc;
        },
        tt,
      ),
    ),
  ),
)

target_group-inactive_example :
    All
      (λ (e : Text × Slot). e.1.state ≡ st_inactive)
      (determine_target_install_group false statuses system)
target_group-inactive_example =
    target_group-inactive real system (codes "A") system false statuses determined system-WellFormed

select_inactive-oldest_example : All (Precedes statuses (codes "rootfs") rootfs_b) system
unfolding select_inactive select_loop text_eq strcmp0_eq
select_inactive-oldest_example =
    select_inactive-oldest statuses (codes "rootfs") system rootfs_b refl refl
