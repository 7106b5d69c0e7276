-- ===== src/StatusFile/Global.antt =====
-- The statuses of all slots in one file.
use rauc.Prelude.{◌≡◌, some, Text}
use rauc.Slot.{SlotStatus, Slot}
use rauc.StatusFile.{Formats, Group, set_slot_status, KeyFile, slot_group}

module _ (f : Formats) where
  -- The group of a slot holds its status.
  Holds : KeyFile f → Text → SlotStatus → Type 0
  Holds file name st = (g : Group) × (file (slot_group f name) ≡ some (set_slot_status f st g))
