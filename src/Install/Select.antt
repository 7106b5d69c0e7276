-- ===== src/Install/Select.antt =====
-- src/install.c: the choice of the slots to install to, `select_inactive_slot_class_member` and
-- `determine_target_install_group`.
pub mod Oldest
pub mod Group
mod Tests
use rauc.Prelude.{
  ℕ, ◌≡◌, Bool, true, false, not, ◌&&◌, ◌||◌, Option, none, some, List, [], ◌∷◌, ◌++◌, Text, codes,
  text_eq, strcmp0_eq, ltb, if◌then◌else◌,
}
use rauc.Slot.{
  Slot, Slots, SlotState, SlotStatus, is_inactive, get_root_classes, get_parent_root, list_contains,
}

-- The status of each slot by its name (`slot->status`).
abbrev pub Statuses : Type 0
Statuses = Text → SlotStatus

-- The first two tests of the loop.
abbrev pub is_candidate : Text → Slot → Bool
is_candidate rootclass s = is_inactive s.state && text_eq s.sclass rootclass

-- A slot that is taken at once: its last installation failed, or it has no time of installation.
abbrev pub is_urgent : SlotStatus → Bool
is_urgent status =
    strcmp0_eq status.status (some (codes "failed"))
    || elim status.installed_timestamp [ none ↦ true | some t ↦ false ]

-- `g_date_time_compare(a, b) < 0`
abbrev pub is_older : Option ℕ → Option ℕ → Bool
is_older (some a) (some b) = ltb a b
is_older (some a) none = false
is_older none b = false

-- The loop of `select_inactive_slot_class_member`, with the candidate so far.
unfoldable pub select_loop : Bool → Statuses → Text → Slots → Option Slot → Option Slot
select_loop per_slot st rootclass [] selected = selected
select_loop per_slot st rootclass (s ∷ ss) selected =
    let next = select_loop per_slot st rootclass ss in
    let older : Option Slot = elim selected [
      | none ↦ some s
      | some best ↦
          if is_older (st s.name).installed_timestamp (st best.name).installed_timestamp
          then some s
          else some best
    ] in
    if not (is_candidate rootclass s)
    then next selected
    else if per_slot
    then some s
    else if is_urgent (st s.name)
    then some s
    else next older

-- `select_inactive_slot_class_member`; `per_slot` tells a status file in each slot.
unfoldable pub select_inactive : Bool → Statuses → Slots → Text → Option Slot
select_inactive per_slot st slots rootclass = select_loop per_slot st rootclass slots none

-- One selected slot for each root class that has one.
unfoldable pub selected_roots : Bool → Statuses → Slots → List Text → Slots
selected_roots per_slot st slots [] = []
selected_roots per_slot st slots (c ∷ cs) =
    let rest = selected_roots per_slot st slots cs in
    elim (select_inactive per_slot st slots c) [ none ↦ rest | some s ↦ s ∷ rest ]

-- `g_hash_table_insert`: a slot class that is there gets the new slot.
unfoldable pub insert_target : Text → Slot → List (Text × Slot) → List (Text × Slot)
insert_target class s [] = (class, s) ∷ []
insert_target class s ((c, t) ∷ g) =
    if text_eq c class then (class, s) ∷ g else (c, t) ∷ insert_target class s g

-- `g_hash_table_lookup`
unfoldable pub lookup_target : List (Text × Slot) → Text → Option Slot
lookup_target [] class = none
lookup_target ((c, t) ∷ g) class = if text_eq c class then some t else lookup_target g class

-- The loop over all slots, which adds those whose root is selected.
unfoldable pub group_loop : Slots → Slots → Slots → List (Text × Slot) → List (Text × Slot)
group_loop table selected [] group = group
group_loop table selected (s ∷ ss) group = elim (get_parent_root table s) [
  | none ↦ group_loop table selected ss group
  | some root ↦
      group_loop table selected ss
        (if list_contains selected root then insert_target s.sclass s group else group)
]

-- `determine_target_install_group`
unfoldable pub determine_target_install_group : Bool → Statuses → Slots → List (Text × Slot)
determine_target_install_group per_slot st slots =
    group_loop slots (selected_roots per_slot st slots (get_root_classes slots)) slots []
