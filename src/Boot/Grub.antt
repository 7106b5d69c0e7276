-- ===== src/Boot/Grub.antt =====
-- src/bootloaders/grub.c: the boot order and the flags of the slots, in the GRUB environment block.
pub mod Laws
pub mod Keys
pub mod Flags
pub mod Contract
mod Tests
use rauc.Prelude.{
  ℕ, suc, ◌+◌, Bool, true, false, not, ◌&&◌, ◌||◌, Option, none, some, List, [], ◌∷◌, ◌++◌, Text,
  codes, strcmp0_eq, chomp, strsplit, strtoull, drop, length, ltb, ◌==◌, has_prefix, if◌then◌else◌,
  Result, ok, err, ◌>>=◌, bootchooser_parse_failed, aborted, no_error,
}
use rauc.Slot.{Slot, Slots}
use rauc.Boot.Tools.{Tools, BootConfig, print_string, stdout_of, checked}
use rauc.Boot.Uboot.{lists_name, order_primary}
use rauc.Boot.Backend.{Backend}

abbrev pub order_key : Text
order_key = codes "ORDER"

-- `%s_OK` and `%s_TRY`
unfoldable pub ok_key : Option Text → Text
ok_key bootname = print_string bootname ++ codes "_OK"

unfoldable pub try_key : Option Text → Text
try_key bootname = print_string bootname ++ codes "_TRY"

-- The argument vectors of `grub-editenv`.
unfoldable pub list_args : BootConfig → List Text
list_args config =
    codes "grub-editenv"
    ∷ elim config.grubenv_path [ none ↦ codes "list" ∷ [] | some path ↦ path ∷ codes "list" ∷ [] ]

-- The loop over the lines of the output, for the first one that begins with `KEY=`.
unfoldable pub find_variable : Text → List Text → Result Text
find_variable prefix [] = err bootchooser_parse_failed
find_variable prefix (l ∷ ls) =
    let rest = find_variable prefix ls in
    if has_prefix l prefix then ok (chomp (drop (length prefix) l)) else rest

-- `NAME=VALUE`
abbrev pub pair : Text → Text → Text
pair key value = key ++ 61 ∷ value

module _ (t : Tools) (config : BootConfig) where
  open t use {World, query, update}

  -- `grub_env_get`
  unfoldable pub grub_env_get : Text → World → Result Text
  grub_env_get key w = do
    stdout ← stdout_of (query (list_args config) w)
    find_variable (key ++ 61 ∷ []) (strsplit 10 stdout)

  -- `grub_env_set`; the path of the environment must be configured.
  unfoldable pub grub_env_set : List Text → World → Result (Unit {0}) × World
  grub_env_set pairs w = elim config.grubenv_path [
    | none ↦ (err aborted, w)
    | some path ↦
        let (c, w') = update (codes "grub-editenv" ∷ path ∷ codes "set" ∷ pairs) w in
        (checked c, w')
  ]

  -- The check of the flags, in `r_grub_get_state` and `r_grub_get_primary`.
  unfoldable pub flags_good : Slot → World → Result Bool
  flags_good slot w = do
    slot_ok ← grub_env_get (ok_key slot.bootname) w
    slot_try ← grub_env_get (try_key slot.bootname) w
    ok (strtoull 0 slot_ok == 1 && strtoull 0 slot_try == 0)

  -- `r_grub_get_state`
  unfoldable pub grub_get_state : Slot → World → Result Bool
  grub_get_state slot w = elim slot.bootname [
    | none ↦ err no_error
    | some b ↦ do
      order ← grub_env_get order_key w
      if lists_name (some b) (strsplit 32 order) then flags_good slot w else ok false
  ]

  -- `r_grub_set_state`
  unfoldable pub grub_set_state : Slot → Bool → World → Result (Unit {0}) × World
  grub_set_state slot good w = elim slot.bootname [
    | none ↦ (err no_error, w)
    | some b ↦
        grub_env_set
          (pair (ok_key (some b)) (if good then codes "1" else codes "0")
            ∷ pair (try_key (some b)) (codes "0")
            ∷ [])
          w
  ]

  -- The inner loop of `r_grub_get_primary`: a slot of this name with good flags.
  unfoldable pub grub_find_slot : Text → Slots → World → Result (Option Slot)
  grub_find_slot name [] w = ok none
  grub_find_slot name (s ∷ ss) w =
      let rest = grub_find_slot name ss w in
      if strcmp0_eq (some name) s.bootname
      then (do good ← flags_good s w; if good then ok (some s) else rest)
      else rest

  unfoldable pub grub_find_primary : List Text → Slots → World → Result Slot
  grub_find_primary [] slots w = err bootchooser_parse_failed
  grub_find_primary (n ∷ ns) slots w =
      let rest = grub_find_primary ns slots w in
      do found ← grub_find_slot n slots w; elim found [ none ↦ rest | some s ↦ ok s ]

  -- `r_grub_get_primary`. (Its test for an empty order looks at a length from before the white
  -- space was cut off; an order of white space alone splits into no name of a slot, and fails with
  -- the same error.)
  unfoldable pub grub_get_primary : World → Result Slot
  grub_get_primary w = do
    order ← grub_env_get order_key w
    grub_find_primary (strsplit 32 order) config.slots w

  -- `r_grub_set_primary`
  unfoldable pub grub_set_primary : Slot → World → Result (Unit {0}) × World
  grub_set_primary slot w =
      grub_env_set
        (pair (ok_key slot.bootname) (codes "1")
          ∷ pair (try_key slot.bootname) (codes "0")
          ∷ pair order_key (order_primary config.slots slot)
          ∷ [])
        w

  abbrev pub grub_backend : Backend World
  grub_backend = record {
    get_state = grub_get_state;
    set_state = grub_set_state;
    get_primary = grub_get_primary;
    set_primary = grub_set_primary;
  }
