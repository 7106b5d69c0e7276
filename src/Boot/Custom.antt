-- ===== src/Boot/Custom.antt =====
-- src/bootloaders/custom.c: the boot loader interface that is a program of the system.
pub mod Laws
mod Tests
use rauc.Prelude.{
  ℕ, Bool, true, false, Option, none, some, List, [], ◌∷◌, Text, codes, strcmp0_eq, strsplit, chomp,
  skip_space, if◌then◌else◌, Result, ok, err, ◌>>=◌, bootchooser_parse_failed, bootchooser_failed,
  no_error,
}
use rauc.Slot.{Slot, Slots}
use rauc.Boot.Tools.{Tools, BootConfig, stdout_of, checked}
use rauc.Boot.Backend.{Backend}

-- The slot whose bootname a text is.
unfoldable pub find_slot_by_text : Text → Slots → Option Slot
find_slot_by_text ret_str [] = none
find_slot_by_text ret_str (s ∷ ss) =
    let rest = find_slot_by_text ret_str ss in
    elim s.bootname [
      | none ↦ rest
      | some b ↦ if strcmp0_eq (some ret_str) (some b) then some s else rest
    ]

-- The line that `g_data_input_stream_read_line` reads, or nothing.
unfoldable pub first_line : Text → Text
first_line stdout = elim (strsplit 10 stdout) [ [] ↦ [] | l ∷ ls ↦ l ]

module _ (t : Tools) (config : BootConfig) where
  open t use {World, query, update}

  -- `custom_backend_get`; no program can be started without a name.
  unfoldable pub custom_backend_get : Text → Option Text → World → Result Text
  custom_backend_get cmd bootname w = elim config.custom_bootloader_backend [
    | none ↦ err no_error
    | some backend ↦ do
      stdout ← stdout_of (query (backend ∷ cmd ∷ elim bootname [ none ↦ [] | some b ↦ b ∷ [] ]) w)
      ok (skip_space (chomp stdout))
  ]

  -- `custom_backend_set`; it fails without an error where the slot has no bootname.
  unfoldable pub custom_backend_set :
      Text → Option Text → Option Text → World → Result (Unit {0}) × World
  custom_backend_set cmd bootname arg w = elim bootname [
    | none ↦ (err no_error, w)
    | some b ↦ elim config.custom_bootloader_backend [
      | none ↦ (err no_error, w)
      | some backend ↦
          let (c, w') = update (backend ∷ cmd ∷ b ∷ elim arg [ none ↦ [] | some a ↦ a ∷ [] ]) w in
          (checked c, w')
    ]
  ]

  -- `r_custom_get_current_bootname`
  unfoldable pub custom_get_current_bootname : World → Result Text
  custom_get_current_bootname w = elim config.custom_bootloader_backend [
    | none ↦ err no_error
    | some backend ↦ do
      stdout ← stdout_of (query (backend ∷ codes "get-current" ∷ []) w)
      elim (first_line stdout) [ [] ↦ err bootchooser_parse_failed | c ∷ s ↦ ok (c ∷ s) ]
  ]

  -- `r_custom_set_state`
  unfoldable pub custom_set_state : Slot → Bool → World → Result (Unit {0}) × World
  custom_set_state slot good =
      custom_backend_set (codes "set-state") slot.bootname
        (some (if good then codes "good" else codes "bad"))

  -- `r_custom_get_primary`
  unfoldable pub custom_get_primary : World → Result Slot
  custom_get_primary w = do
    ret_str ← custom_backend_get (codes "get-primary") none w
    elim (find_slot_by_text ret_str config.slots) [
      | none ↦ err bootchooser_parse_failed
      | some s ↦ ok s
    ]

  -- `r_custom_get_state`
  unfoldable pub custom_get_state : Slot → World → Result Bool
  custom_get_state slot w = do
    ret_str ← custom_backend_get (codes "get-state") slot.bootname w
    if strcmp0_eq (some ret_str) (some (codes "good"))
        then ok true
        else if strcmp0_eq (some ret_str) (some (codes "bad"))
        then ok false
        else err bootchooser_failed

  -- `r_custom_set_primary`
  unfoldable pub custom_set_primary : Slot → World → Result (Unit {0}) × World
  custom_set_primary slot = custom_backend_set (codes "set-primary") slot.bootname none

  abbrev pub custom_backend : Backend World
  custom_backend = record {
    get_state = custom_get_state;
    set_state = custom_set_state;
    get_primary = custom_get_primary;
    set_primary = custom_set_primary;
  }
