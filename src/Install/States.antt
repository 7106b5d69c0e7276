-- ===== src/Install/States.antt =====
-- src/install.c: `determine_slot_states` and `determine_boot_states`.
pub mod Laws
mod Tests
use rauc.Prelude.{
  ◌≡◌, Bool, true, false, ◌||◌, Option, none, some, List, [], ◌∷◌, map, Text, codes, text_eq,
  strcmp0_eq, if◌then◌else◌, Result, ok, err, slot_no_config, slot_no_bootslot,
  slot_no_slot_with_state_booted,
}
use rauc.Slot.{Slot, Slots, SlotState, st_booted, st_active, st_inactive}

-- The three comparisons of a slot with the boot slot. `realpath` is `r_realpath`; where it fails
-- the device itself is compared.
unfoldable pub matches_bootslot : (Text → Option Text) → Text → Slot → Bool
matches_bootslot realpath bootslot s =
    let realdev : Text = elim (realpath s.device) [ none ↦ s.device | some d ↦ d ] in
    if strcmp0_eq s.bootname (some bootslot)
    then true
    else if text_eq s.name bootslot
    then true
    else text_eq realdev bootslot

unfoldable pub find_booted : (Text → Option Text) → Text → Slots → Option Slot
find_booted realpath bootslot [] = none
find_booted realpath bootslot (s ∷ ss) =
    let rest = find_booted realpath bootslot ss in
    if matches_bootslot realpath bootslot s then some s else rest

-- The state of a slot, given the booted one.
unfoldable pub state_beside : Slot → Slot → SlotState
state_beside booted s =
    if text_eq s.name booted.name
    then st_booted
    else if strcmp0_eq s.parent (some booted.name)
    then st_active
    else st_inactive

unfoldable pub mark_states : (Slot → SlotState) → Slots → Slots
mark_states f [] = []
mark_states f (s ∷ ss) = record s { state = f s } ∷ mark_states f ss

-- `determine_slot_states`; the table and the boot slot may be missing.
unfoldable pub determine_slot_states :
    (Text → Option Text) → Option Slots → Option Text → Result Slots
determine_slot_states realpath none bootslot = err slot_no_config
determine_slot_states realpath (some slots) none = err slot_no_bootslot
determine_slot_states realpath (some slots) (some bootslot) =
    elim (find_booted realpath bootslot slots) [
      | none ↦
          if text_eq bootslot (codes "_external_")
          then ok (mark_states (λ s. st_inactive) slots)
          else err slot_no_slot_with_state_booted
      | some booted ↦ ok (mark_states (state_beside booted) slots)
    ]

-- The loop of `determine_boot_states`, with the slots that it updates and whether one failed. A
-- slot without a bootname is skipped; one whose state cannot be read keeps the old flag.
unfoldable pub boot_states_loop : (Slot → Result Bool) → Slots → Slots × Bool
boot_states_loop get_state [] = ([], false)
boot_states_loop get_state (s ∷ ss) =
    let (rest, failed) = boot_states_loop get_state ss in
    elim s.bootname [
      | none ↦ (s ∷ rest, failed)
      | some b ↦ elim (get_state s) [
        | ok good ↦ (record s { boot_good = good } ∷ rest, failed)
        | err e ↦ (s ∷ rest, true)
      ]
    ]

-- `determine_boot_states`: the error is the same whichever slot failed.
unfoldable pub determine_boot_states : (Slot → Result Bool) → Slots → Slots × Result (Unit {0})
unfolding boot_states_loop
determine_boot_states get_state slots =
    let (slots', failed) = boot_states_loop get_state slots in
    (slots', if failed then err slot_no_slot_with_state_booted else ok tt)
