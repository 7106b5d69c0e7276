-- ===== src/Mark.antt =====
-- src/mark.c: marking slots as good, bad or active.
pub mod Laws
pub mod Order
mod Tests
use rauc.Prelude.{
  ℕ, suc, ◌+◌, Bool, true, false, not, ◌&&◌, Option, none, some, List, [], ◌∷◌, ◌++◌, Text, codes,
  text_eq, strcmp0_eq, strsplit, length, ltb, ◌==◌, if◌then◌else◌, Result, ok, err, aborted,
  slot_failed, slot_no_slot_with_state_booted, install_mark_bootable, install_failed,
}
use rauc.Slot.{Slot, Slots, SlotStatus, lookup_slot, get_booted}
use rauc.Machine.{
  Io, SystemConfig, Run, Step, Event, state_set, primary_set, saved, set_status, call, act, act_ok,
  return, fail, lift, with_error, ignore_error, ◌>>=◌, ◌>>◌,
}

-- The other slots that can be booted of the class of the booted one.
unfoldable pub other_slots : Slot → Slots → Slots
other_slots booted [] = []
other_slots booted (s ∷ ss) =
    let rest = other_slots booted ss in
    if text_eq s.sclass booted.sclass
      && (elim s.parent [ none ↦ true | some p ↦ false ])
      && (elim s.bootname [ none ↦ false | some b ↦ true ])
      && not (text_eq s.name booted.name)
    then s ∷ rest
    else rest

abbrev or_failed : Slots → Result Slots
or_failed [] = err slot_failed
or_failed (s ∷ ss) = ok (s ∷ ss)

-- `get_slots_by_identifier`
unfoldable pub get_slots_by_identifier : Slots → Text → Result Slots
get_slots_by_identifier slots identifier =
    if text_eq identifier (codes "booted")
    then elim (get_booted slots) [
      | none ↦ err slot_no_slot_with_state_booted
      | some b ↦ ok (b ∷ [])
    ]
    else if text_eq identifier (codes "other")
    then elim (get_booted slots) [
      | none ↦ err slot_no_slot_with_state_booted
      | some b ↦ or_failed (other_slots b slots)
    ]
    else if length (strsplit 46 identifier) == 2
    then elim (lookup_slot slots identifier) [
      | none ↦ err slot_failed
      | some s ↦ elim s.bootname [ none ↦ err slot_failed | some b ↦ ok (s ∷ []) ]
    ]
    else err slot_failed

-- The names for the message of `mark_run`, each with a space after it, the last space cut off.
names_loop : Slots → Text
names_loop [] = []
names_loop (s ∷ ss) = s.name ++ 32 ∷ names_loop ss

drop_last : Text → Text
drop_last [] = []
drop_last (c ∷ cs) = elim cs [ [] ↦ [] | d ∷ ds ↦ c ∷ drop_last cs ]

unfoldable pub slot_names : Slots → Text
unfolding names_loop drop_last
slot_names slots =
    let names = names_loop slots in if ltb 1 (length names) then drop_last names else names

module _ (io : Io) where
  open io use {World, now, load_status, save_status, boot_set_state, boot_set_primary}

  -- `r_slot_status_load`, and whether it left the slot mounted.
  unfoldable pub status_load : Slot → Step World Bool
  status_load s r =
      let (found, w) = load_status s r.statuses r.world in
      (ok found.1, record r { world = w; statuses = found.0 })

  -- `r_slot_status_save` of the status in memory.
  unfoldable pub status_save : Slot → Step World (Unit {0})
  status_save s r = act (saved s.name (r.statuses s.name)) (save_status s (r.statuses s.name)) r

  -- An assignment to members of `slot->status`.
  unfoldable pub status_update : Slot → (ℕ → SlotStatus → SlotStatus) → Step World (Unit {0})
  status_update s f r = (
    ok tt,
    record r { statuses = set_status s.name (f (now r.world) (r.statuses s.name)) r.statuses },
  )

  -- `r_mark_good` and `r_mark_bad`
  unfoldable pub mark_good : Slot → Step World (Unit {0})
  mark_good s =
      with_error install_mark_bootable (act_ok (λ u. state_set s.name true) (boot_set_state s true))

  unfoldable pub mark_bad : Slot → Step World (Unit {0})
  mark_bad s =
      with_error install_mark_bootable
        (act_ok (λ u. state_set s.name false) (boot_set_state s false))

  -- The part of `r_mark_active` after the boot loader: a failure to save is only logged.
  unfoldable pub note_activation : Slot → Step World (Unit {0})
  note_activation s =
      status_update s
        (λ t x. record x { activated_timestamp = some t; activated_count = x.activated_count + 1 })
      >> ignore_error (status_save s)

  unfoldable pub activate : Slot → Step World (Unit {0})
  activate s =
      with_error install_mark_bootable (act_ok (λ u. primary_set s.name) (boot_set_primary s))
      >> note_activation s

  -- `r_mark_active`; the event log is left out.
  unfoldable pub mark_active : Slot → Step World (Unit {0})
  mark_active s = status_load s >>= (λ still. activate s)

  unfoldable pub mark_all_bad : Slots → Step World (Unit {0})
  mark_all_bad [] = return tt
  mark_all_bad (s ∷ ss) = mark_bad s >> mark_all_bad ss

  -- `g_list_first(slots)->data`, where more than one slot is an error.
  unfoldable pub single : Slots → Step World Slot
  single [] = fail aborted
  single (s ∷ ss) = elim ss [ [] ↦ return s | x ∷ xs ↦ fail install_failed ]

  -- The branches of `mark_run`, on the slots that the identifier names. `bad_other` is the call
  -- `mark_run("bad", "other")` in the branch of "good".
  unfoldable pub run_good : Step World Text → SystemConfig → Text → Slots → Step World (Unit {0})
  run_good bad_other config identifier slots = single slots >>= (λ s.
      mark_good s
      >> (if config.prevent_late_fallback && text_eq identifier (codes "booted")
          then bad_other >>= (λ names. return tt)
          else return tt))

  unfoldable pub run_active : Slots → Step World (Unit {0})
  run_active slots = single slots >>= mark_active

  unfoldable pub run_branch :
      Step World Text → SystemConfig → Text → Text → Slots → Step World (Unit {0})
  run_branch bad_other config state identifier slots =
      if text_eq state (codes "good")
      then run_good bad_other config identifier slots
      else if text_eq state (codes "bad")
      then mark_all_bad slots
      else if text_eq state (codes "active")
      then run_active slots
      else fail install_failed

  -- The body of `mark_run`; the result is the slot names of the message. Its errors are messages
  -- only.
  unfoldable pub mark_body : Step World Text → SystemConfig → Text → Text → Step World Text
  mark_body bad_other config state identifier = do
    slots ← lift (get_slots_by_identifier config.slots identifier)
    run_branch bad_other config state identifier slots
    return (slot_names slots)

  -- `mark_run`: the branch of "bad", which the inner call takes, does not call it again.
  unfoldable pub mark_run : SystemConfig → Text → Text → Step World Text
  mark_run config = mark_body (mark_body (fail aborted) config (codes "bad") (codes "other")) config
