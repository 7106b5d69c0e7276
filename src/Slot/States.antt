-- ===== src/Slot/States.antt =====
-- The names of the slot states.
use rauc.Prelude.{◌≡◌, refl, some, Text, text_eq, strcmp0_eq}
use mathlib.Core.Path.{subst}
use rauc.Slot.{SlotState, st_unknown, slotstate_to_str, str_to_slotstate}

parsed :
    (st : SlotState) (n : Text)
    → slotstate_to_str st ≡ some n
    → str_to_slotstate (slotstate_to_str st) ≡ st
unfolding slotstate_to_str str_to_slotstate strcmp0_eq text_eq
parsed st_unknown n e = cc
parsed _ n e = refl

-- A state that has a name is read back from it.
pub str_to_slotstate-slotstate_to_str :
    (st : SlotState) (n : Text) → slotstate_to_str st ≡ some n → str_to_slotstate (some n) ≡ st
str_to_slotstate-slotstate_to_str st n e = subst (λ o. str_to_slotstate o ≡ st) e (parsed st n e)
