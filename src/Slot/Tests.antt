-- ===== src/Slot/Tests.antt =====
-- A slot state read back.
use rauc.Prelude.{◌≡◌, refl, some, codes}
use rauc.Slot.{st_active, slotstate_to_str, str_to_slotstate}
use rauc.Slot.States.{str_to_slotstate-slotstate_to_str}

str_to_slotstate-slotstate_to_str_example : str_to_slotstate (some (codes "active")) ≡ st_active
unfolding slotstate_to_str
str_to_slotstate-slotstate_to_str_example =
    str_to_slotstate-slotstate_to_str st_active (codes "active") refl
