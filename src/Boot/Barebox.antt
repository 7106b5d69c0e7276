-- ===== src/Boot/Barebox.antt =====
-- src/bootloaders/barebox.c: the priorities and the remaining attempts of the slots, in the barebox
-- state.
pub mod Laws
pub mod Keys
pub mod Primary
pub mod Top
pub mod Contract
mod Tests
use rauc.Prelude.{
  is_space, has_prefix, drop, ℕ, ◌+◌, ◌%◌, ◌^◌, Bool, true, false, not, ◌&&◌, ◌||◌, Option, none,
  some, List, [], ◌∷◌, ◌++◌, map, Text, codes, text_eq, strsplit, strtoull, print_dec, skip_space,
  max_uint64, ltb, leb, ◌==◌, if◌then◌else◌, Result, ok, err, ◌>>=◌, bootchooser_parse_failed,
  aborted, no_error,
}
use rauc.Slot.{Slot, Slots, same_slot}
use rauc.Boot.Tools.{Tools, BootConfig, print_string, stdout_of, checked, attempts_or}
use rauc.Boot.Backend.{Backend}

-- `BareboxSlotState`
pub record BareboxSlotState : Type 0 where
  pub prio : ℕ
  pub attempts : ℕ

-- `\S+` at the start of a text.
unfoldable pub word_of : Text → Text
word_of [] = []
word_of (c ∷ s) = if is_space c then [] else c ∷ word_of s

-- `(?:bootstate|bootchooser)\.active=(\S+)` at the start of a text.
unfoldable pub active_at : Text → Option Text
active_at s =
    let found = word_of (drop (if has_prefix s (codes "bootstate.active=") then 17 else 19) s) in
    if has_prefix s (codes "bootstate.active=") || has_prefix s (codes "bootchooser.active=")
    then elim found [ [] ↦ none | c ∷ cs ↦ some (c ∷ cs) ]
    else none

-- `r_barebox_get_current_bootname`: the first match on the command line.
unfoldable pub barebox_get_current_bootname : Text → Option Text
barebox_get_current_bootname [] = none
barebox_get_current_bootname (c ∷ s) =
    let rest = barebox_get_current_bootname s in
    elim (active_at (c ∷ s)) [ none ↦ rest | some name ↦ some name ]

-- `bootstate.%s.priority` and `bootstate.%s.remaining_attempts`
unfoldable pub prio_key : Option Text → Text
prio_key bootname = codes "bootstate." ++ (print_string bootname ++ codes ".priority")

unfoldable pub attempts_key : Option Text → Text
attempts_key bootname = codes "bootstate." ++ (print_string bootname ++ codes ".remaining_attempts")

abbrev pub option_args : Text → Option Text → List Text
option_args flag none = []
option_args flag (some v) = flag ∷ v ∷ []

-- The argument vectors of `barebox-state`.
unfoldable pub get_args : BootConfig → Option Text → List Text
get_args config bootname =
    codes "barebox-state"
    ∷ (option_args (codes "-n") config.system_bb_statename
        ++ (codes "-g"
            ∷ prio_key bootname
            ∷ codes "-g"
            ∷ attempts_key bootname
            ∷ option_args (codes "-i") config.system_bb_dtbpath))

unfoldable pub set_options : List (Text × ℕ) → List Text
set_options [] = []
set_options ((key, value) ∷ ps) = codes "-s" ∷ (key ++ 61 ∷ print_dec value) ∷ set_options ps

unfoldable pub set_args : BootConfig → List (Text × ℕ) → List Text
set_args config pairs =
    codes "barebox-state"
    ∷ (option_args (codes "-n") config.system_bb_statename
        ++ (set_options pairs ++ option_args (codes "-i") config.system_bb_dtbpath))

abbrev is_digit : ℕ → Bool
is_digit c = leb b'0' c && leb c b'9'

-- Whether `g_ascii_strtoull(s, &end, 10)` reads a digit.
unfoldable pub starts_number : Text → Bool
starts_number [] = false
starts_number (c ∷ []) = is_digit c
starts_number (c ∷ d ∷ s) = if c == b'-' || c == b'+' then is_digit d else is_digit c

-- The value of one line. `errno` is taken to be set where the largest value is read: it is where
-- the number is too large, and at that value itself the source looks at an older error.
unfoldable pub read_line : List Text → Result (ℕ × List Text)
unfolding starts_number
read_line [] = err bootchooser_parse_failed
read_line (l ∷ ls) =
    let n = strtoull 10 l in
    if n == 0 && not (starts_number (skip_space l))
    then err bootchooser_parse_failed
    else if n == max_uint64
    then err bootchooser_parse_failed
    else ok (n, ls)

module _ (t : Tools) (config : BootConfig) where
  open t use {World, query, update}

  -- `barebox_state_get`; the values are stored as `guint32`.
  unfoldable pub barebox_state_get : Option Text → World → Result BareboxSlotState
  barebox_state_get bootname w = elim bootname [
    | none ↦ err no_error
    | some b ↦ do
      stdout ← stdout_of (query (get_args config (some b)) w)
      (prio, rest) ← read_line (strsplit 10 stdout)
      (attempts, rest') ← read_line rest
      ok (record { prio = prio % 2 ^ 32; attempts = attempts % 2 ^ 32 })
  ]

  -- `barebox_state_set`
  unfoldable pub barebox_state_set : List (Text × ℕ) → World → Result (Unit {0}) × World
  barebox_state_set pairs w = let (c, w') = update (set_args config pairs) w in (checked c, w')

  -- `r_barebox_set_state`: a bad slot gets the priority 0 too.
  unfoldable pub barebox_set_state : Slot → Bool → World → Result (Unit {0}) × World
  barebox_set_state slot good w =
      let attempts = if good then attempts_or 3 config.boot_default_attempts else 0 in
      let left = (attempts_key slot.bootname, attempts) ∷ [] in
      barebox_state_set (if good then left else (prio_key slot.bootname, 0) ∷ left) w

  -- The loop of `r_barebox_get_primary`, with the best slot so far.
  unfoldable pub top_slot : Slots → Option Slot → ℕ → World → Result (Option Slot)
  top_slot [] primary top w = ok primary
  top_slot (s ∷ ss) primary top w =
      let skip = top_slot ss primary top w in
      elim s.bootname [
        | none ↦ skip
        | some b ↦ elim (barebox_state_get (some b) w) [
          | err e ↦ err e
          | ok state ↦
              let take = top_slot ss (some s) state.prio w in
              if state.attempts == 0 then skip else if ltb top state.prio then take else skip
        ]
      ]

  -- `r_barebox_get_primary`
  unfoldable pub barebox_get_primary : World → Result Slot
  barebox_get_primary w = do
    primary ← top_slot config.slots none 0 w
    elim primary [ none ↦ err bootchooser_parse_failed | some s ↦ ok s ]

  -- `r_barebox_get_state`
  unfoldable pub barebox_get_state : Slot → World → Result Bool
  barebox_get_state slot w = do
    state ← barebox_state_get slot.bootname w
    ok (ltb 0 state.prio && ltb 0 state.attempts)

  -- The priorities that `r_barebox_set_primary` writes.
  unfoldable pub new_priorities : Slot → Slots → World → Result (List (Text × ℕ))
  new_priorities slot [] w = ok []
  new_priorities slot (s ∷ ss) w =
      let rest = new_priorities slot ss w in
      elim s.bootname [
        | none ↦ rest
        | some b ↦ do
          state ← barebox_state_get (some b) w
          pairs ← rest
          ok (
              (
                prio_key (some b),
                if same_slot s slot then 20 else if state.prio == 0 then 0 else 10,
              )
              ∷ pairs)
      ]

  -- `r_barebox_set_primary`
  unfoldable pub barebox_set_primary : Slot → World → Result (Unit {0}) × World
  barebox_set_primary slot w = elim (new_priorities slot config.slots w) [
    | err e ↦ (err e, w)
    | ok pairs ↦
        barebox_state_set
          (pairs ++ (attempts_key slot.bootname, attempts_or 3 config.boot_attempts_primary) ∷ []) w
  ]

  abbrev pub barebox_backend : Backend World
  barebox_backend = record {
    get_state = barebox_get_state;
    set_state = barebox_set_state;
    get_primary = barebox_get_primary;
    set_primary = barebox_set_primary;
  }
