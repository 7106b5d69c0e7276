-- ===== src/Boot/Uboot.antt =====
-- src/bootloaders/uboot.c: the boot order and the attempts left, in the U-Boot environment.
pub mod Laws
pub mod Primary
pub mod State
pub mod Contract
pub mod Tests
use rauc.Prelude.{
  ℕ, suc, ◌+◌, ◌≡◌, Bool, true, false, ◌&&◌, ◌||◌, Option, none, some, List, [], ◌∷◌, ◌++◌, Text,
  codes, text_eq, strcmp0_eq, chomp, strsplit, strjoinv, strtoull, print_hex, drop, length, ltb,
  if◌then◌else◌, Result, ok, err, ◌>>=◌, bootchooser_parse_failed,
}
use rauc.Slot.{Slot, Slots}
use rauc.Boot.Backend.{Backend}
use rauc.Boot.Tools.{Tools, BootConfig, print_string, string_new, stdout_of, checked, attempts_or}

abbrev pub boot_order : Text
boot_order = codes "BOOT_ORDER"

-- `BOOT_%s_LEFT`
unfoldable pub left_key : Option Text → Text
left_key bootname = codes "BOOT_" ++ (print_string bootname ++ codes "_LEFT")

-- `r_bootchooser_order_primary` (src/bootchooser.c), from the slots still to visit.
unfoldable pub order_rest : Slot → Slots → Text
order_rest slot [] = []
order_rest slot (s ∷ ss) =
    let rest = order_rest slot ss in
    if text_eq s.name slot.name
    then rest
    else elim s.bootname [ none ↦ rest | some b ↦ 32 ∷ (b ++ rest) ]

unfoldable pub order_primary : Slots → Slot → Text
order_primary slots slot = string_new slot.bootname ++ order_rest slot slots

-- A name of the boot order that the loops skip: the slot's own, or an empty one.
abbrev pub is_skipped : Option Text → Text → Bool
is_skipped bootname name = strcmp0_eq (some name) bootname || text_eq name []

-- The names that the loops keep.
unfoldable pub keep_names : Option Text → List Text → List Text
keep_names bootname [] = []
keep_names bootname (n ∷ ns) =
    let rest = keep_names bootname ns in if is_skipped bootname n then rest else n ∷ rest

-- The loop of `r_uboot_set_primary`, which appends each name that it keeps.
unfoldable pub append_names : Option Text → Text → List Text → Text
append_names bootname acc [] = acc
append_names bootname acc (n ∷ ns) =
    append_names bootname (if is_skipped bootname n then acc else acc ++ 32 ∷ n) ns

unfoldable pub lists_name : Option Text → List Text → Bool
lists_name bootname [] = false
lists_name bootname (n ∷ ns) = if strcmp0_eq (some n) bootname then true else lists_name bootname ns

module _ (t : Tools) where
  open t use {World, query, update}

  -- `uboot_env_get`: the output is `KEY=value`. (The source does not look whether the output is
  -- as long as `KEY=`, which it is where the tool exits with 0.)
  unfoldable pub env_get : Text → World → Result Text
  env_get key w = do
    stdout ← stdout_of (query (codes "fw_printenv" ∷ key ∷ []) w)
    ok (chomp (drop (suc (length key)) stdout))

  -- `uboot_env_set`
  unfoldable pub env_set : Text → Text → World → Result (Unit {0}) × World
  env_set key value w =
      let (c, w') = update (codes "fw_setenv" ∷ key ∷ value ∷ []) w in (checked c, w')

  -- The check of the attempts left, in `r_uboot_get_state` and `r_uboot_get_primary`.
  unfoldable pub attempts_left : Slot → World → Result Bool
  attempts_left slot w = do
    attempts ← env_get (left_key slot.bootname) w
    ok (ltb 0 (strtoull 16 attempts))

  -- `r_uboot_get_state`
  unfoldable pub get_state : Slot → World → Result Bool
  get_state slot w = do
    order ← env_get boot_order w
    if lists_name slot.bootname (strsplit 32 order) then attempts_left slot w else ok false

  -- The part of `r_uboot_set_state` for a bad slot, which takes it off the boot order. An order
  -- that cannot be read is skipped (`goto set_left`).
  unfoldable pub remove_from_order : Slot → World → Result (Unit {0}) × World
  remove_from_order slot w = elim (env_get boot_order w) [
    | err e ↦ (ok tt, w)
    | ok order ↦ env_set boot_order (strjoinv 32 (keep_names slot.bootname (strsplit 32 order))) w
  ]

  -- Steps after one that can fail.
  abbrev pub and_then :
      Result (Unit {0}) × World → (World → Result (Unit {0}) × World) → Result (Unit {0}) × World
  and_then (ok u, w) k = k w
  and_then (err e, w) k = (err e, w)

  -- `r_uboot_set_state`
  unfoldable pub set_state : BootConfig → Slot → Bool → World → Result (Unit {0}) × World
  set_state config slot good w =
      let attempts = if good then attempts_or 3 config.boot_default_attempts else 0 in
      and_then (if good then (ok tt, w) else remove_from_order slot w)
        (env_set (left_key slot.bootname) (print_hex attempts))

  -- The inner loop of `r_uboot_get_primary`: a slot of this name that has attempts left.
  unfoldable pub find_slot : Text → Slots → World → Result (Option Slot)
  find_slot name [] w = ok none
  find_slot name (s ∷ ss) w =
      let rest = find_slot name ss w in
      if strcmp0_eq (some name) s.bootname
      then (do left ← attempts_left s w; if left then ok (some s) else rest)
      else rest

  unfoldable pub find_primary : List Text → Slots → World → Result Slot
  find_primary [] slots w = err bootchooser_parse_failed
  find_primary (n ∷ ns) slots w =
      let rest = find_primary ns slots w in
      do found ← find_slot n slots w; elim found [ none ↦ rest | some s ↦ ok s ]

  -- `r_uboot_get_primary`
  unfoldable pub get_primary : BootConfig → World → Result Slot
  get_primary config w = do
    order ← env_get boot_order w
    find_primary (strsplit 32 order) config.slots w

  -- The order that `r_uboot_set_primary` starts from: the current one, or all slots.
  unfoldable pub current_order : BootConfig → Slot → World → Text
  current_order config slot w = elim (env_get boot_order w) [
    | ok order ↦ order
    | err e ↦ order_primary config.slots slot
  ]

  -- `r_uboot_set_primary`: the attempts first, then the order.
  unfoldable pub set_primary : BootConfig → Slot → World → Result (Unit {0}) × World
  set_primary config slot w =
      let order =
        append_names slot.bootname (string_new slot.bootname)
          (strsplit 32 (current_order config slot w)) in
      and_then
        (env_set (left_key slot.bootname) (print_hex (attempts_or 3 config.boot_attempts_primary))
          w)
        (env_set boot_order order)

  abbrev pub uboot_backend : BootConfig → Backend World
  uboot_backend config = record {
    get_state = get_state;
    set_state = set_state config;
    get_primary = get_primary config;
    set_primary = set_primary config;
  }
