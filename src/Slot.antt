-- ===== src/Slot.antt =====
-- include/slot.h and src/slot.c: the slots of the system configuration.
-- The hash table `config->slots` is the list of its slots in the order of iteration. A pointer
-- to a slot is the slot's name, which is its key in the table.
pub mod States
mod Tests
use rauc.Prelude.{
  ℕ, zero, suc, Bool, true, false, not, ◌&&◌, ◌||◌, Option, none, some, List, [], ◌∷◌, ◌++◌, Text,
  codes, text_eq, strcmp0_eq, if◌then◌else◌, Result, ok, err, Error, length,
}

-- `SlotState`
pub data SlotState : Type 0 where
  st_unknown st_active st_inactive st_booted : SlotState

-- `RaucChecksum` without the type, which is SHA-256 throughout.
pub record Checksum : Type 0 where
  pub digest : Option Text
  pub size : ℕ

-- `RaucSlotStatus`. A `GDateTime` is a number of microseconds since 1970.
pub record SlotStatus : Type 0 where
  pub bundle_compatible : Option Text
  pub bundle_version : Option Text
  pub bundle_description : Option Text
  pub bundle_build : Option Text
  pub bundle_hash : Option Text
  pub status : Option Text
  pub checksum : Checksum
  pub installed_txn : Option Text
  pub installed_timestamp : Option ℕ
  pub installed_count : ℕ
  pub activated_timestamp : Option ℕ
  pub activated_count : ℕ

-- `RaucSlot`, less the options that only the file system tools see. What hangs on the field
-- `status` is kept apart, by the slot's name, since it is what an installation changes.
pub record Slot : Type 0 where
  pub name : Text
  pub sclass : Text
  pub device : Text
  pub slot_type : Text
  pub bootname : Option Text
  pub allow_mounted : Bool
  pub readonly : Bool
  pub install_same : Bool
  pub state : SlotState
  pub boot_good : Bool
  pub parent : Option Text
  pub mount_point : Option Text
  pub ext_mount_point : Option Text
  pub efi_loader : Option Text
  pub efi_cmdline : Option Text

abbrev pub Slots : Type 0
Slots = List Slot

-- `a == b` on pointers to slots of one table.
abbrev pub same_slot : Slot → Slot → Bool
same_slot a b = text_eq a.name b.name

abbrev pub is_booted : SlotState → Bool
is_booted st_booted = true
is_booted _ = false

abbrev pub is_inactive : SlotState → Bool
is_inactive st_inactive = true
is_inactive _ = false

-- `g_hash_table_lookup(slots, name)`
unfoldable pub lookup_slot : Slots → Text → Option Slot
lookup_slot [] k = none
lookup_slot (s ∷ ss) k = if text_eq s.name k then some s else lookup_slot ss k

-- `r_slot_clear_status`: what is a pointer is cleared, the counts stay.
unfoldable pub clear_status : SlotStatus → SlotStatus
clear_status s = record s {
  bundle_compatible = none;
  bundle_version = none;
  bundle_description = none;
  bundle_build = none;
  bundle_hash = none;
  status = none;
  checksum = record { digest = none; size = 0 };
  installed_txn = none;
  installed_timestamp = none;
  activated_timestamp = none;
}

-- `r_slot_find_by_device`
unfoldable pub find_by_device : Slots → Text → Option Slot
find_by_device [] device = none
find_by_device (s ∷ ss) device =
    if text_eq s.device device then some s else find_by_device ss device

-- `r_slot_get_booted`
unfoldable pub get_booted : Slots → Option Slot
get_booted [] = none
get_booted (s ∷ ss) = if is_booted s.state then some s else get_booted ss

-- `r_slot_slotstate_to_str`; the unknown state aborts the program.
unfoldable pub slotstate_to_str : SlotState → Option Text
slotstate_to_str st_active = some (codes "active")
slotstate_to_str st_inactive = some (codes "inactive")
slotstate_to_str st_booted = some (codes "booted")
slotstate_to_str st_unknown = none

-- `r_slot_str_to_slotstate`
unfoldable pub str_to_slotstate : Option Text → SlotState
str_to_slotstate str =
    if strcmp0_eq str (some (codes "active"))
    then st_active
    else if strcmp0_eq str (some (codes "inactive"))
    then st_inactive
    else if strcmp0_eq str (some (codes "booted"))
    then st_booted
    else st_unknown

-- `supported_slot_types`
abbrev pub supported_slot_types : List (Text × Bool)
supported_slot_types =
    (codes "raw", false)
    ∷ (codes "ext4", true)
    ∷ (codes "ubifs", true)
    ∷ (codes "ubivol", false)
    ∷ (codes "nand", false)
    ∷ (codes "nor", false)
    ∷ (codes "boot-emmc", false)
    ∷ (codes "boot-mbr-switch", false)
    ∷ (codes "boot-gpt-switch", false)
    ∷ (codes "vfat", true)
    ∷ (codes "boot-raw-fallback", false)
    ∷ []

valid_in : List (Text × Bool) → Text → Bool
valid_in [] type = false
valid_in ((t, m) ∷ ts) type = if text_eq type t then true else valid_in ts type

-- `r_slot_is_valid_type`
unfoldable pub is_valid_type : Text → Bool
unfolding valid_in
is_valid_type = valid_in supported_slot_types

mountable_in : List (Text × Bool) → Text → Bool
mountable_in [] type = false
mountable_in ((t, m) ∷ ts) type = if text_eq type t then m else mountable_in ts type

-- `r_slot_is_mountable`
unfoldable pub is_mountable : Slot → Bool
unfolding mountable_in
is_mountable s = mountable_in supported_slot_types s.slot_type

-- The loop of `r_slot_get_parent_root`; `none` means that the fuel has run out.
unfoldable pub parent_root_loop : ℕ → Slots → Slot → Option Slot
parent_root_loop zero slots base = none
parent_root_loop (suc f) slots base = elim base.parent [
  | none ↦ some base
  | some p ↦ elim (lookup_slot slots p) [ none ↦ some base | some up ↦ parent_root_loop f slots up ]
]

-- `r_slot_get_parent_root`: a table of n slots has no chain of more than n of them.
unfoldable pub get_parent_root : Slots → Slot → Option Slot
get_parent_root slots s = parent_root_loop (suc (length slots)) slots s

-- `r_slot_list_contains`
unfoldable pub list_contains : Slots → Slot → Bool
list_contains [] test = false
list_contains (s ∷ ss) test = if same_slot s test then true else list_contains ss test

last_of : Text → List Text → Text
last_of y [] = y
last_of y (z ∷ zs) = last_of z zs

init_of : Text → List Text → List Text
init_of y [] = []
init_of y (z ∷ zs) = y ∷ init_of z zs

-- The last element takes the place of the first.
move_last : List Text → List Text
unfolding last_of init_of
move_last [] = []
move_last (y ∷ ys) = last_of y ys ∷ init_of y ys

-- `g_ptr_array_remove_fast`
unfoldable pub remove_fast : Text → List Text → List Text
unfolding move_last
remove_fast key [] = []
remove_fast key (x ∷ xs) = if text_eq x key then move_last xs else x ∷ remove_fast key xs

root_classes_loop : Slots → List Text → List Text
root_classes_loop [] acc = acc
root_classes_loop (s ∷ ss) acc = elim s.parent [
  | some p ↦ root_classes_loop ss acc
  | none ↦ root_classes_loop ss (remove_fast s.sclass acc ++ s.sclass ∷ [])
]

-- `r_slot_get_root_classes`
unfoldable pub get_root_classes : Slots → List Text
unfolding root_classes_loop remove_fast
get_root_classes slots = root_classes_loop slots []

-- `r_slot_get_all_of_class`
unfoldable pub get_all_of_class : Slots → Text → Slots
get_all_of_class [] class = []
get_all_of_class (s ∷ ss) class =
    let rest = get_all_of_class ss class in if text_eq s.sclass class then s ∷ rest else rest

-- `r_slot_get_all_children`
children_loop : Slots → Slot → Slots → Slots
children_loop table parent [] = []
children_loop table parent (s ∷ ss) =
    let rest = children_loop table parent ss in
    if same_slot s parent then rest else elim (get_parent_root table s) [
      | none ↦ rest
      | some root ↦ if same_slot parent root then s ∷ rest else rest
    ]

unfoldable pub get_all_children : Slots → Slot → Slots
unfolding children_loop
get_all_children slots parent = children_loop slots parent slots
