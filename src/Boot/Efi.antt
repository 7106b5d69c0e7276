-- ===== src/Boot/Efi.antt =====
-- src/bootloaders/efi.c: the boot entries and the boot order, as `efibootmgr` prints and sets them.
pub mod Order
pub mod Tool
pub mod Contract
pub mod Numbers
pub mod Read
mod Tests
use rauc.Prelude.{
  ℕ, zero, suc, Bool, true, false, not, ◌&&◌, ◌||◌, Option, none, some, List, [], ◌∷◌, ◌++◌, Text,
  codes, strcmp0_eq, strsplit, chomp, is_space, has_prefix, drop, length, leb, ◌==◌, if◌then◌else◌,
  Result, ok, err, ◌>>=◌, bootchooser_parse_failed, bootchooser_failed, aborted, no_error,
}
use rauc.Slot.{Slot, Slots}
use rauc.Boot.Tools.{Tools, BootConfig, stdout_of, checked}
use rauc.Boot.Names.{find_by_bootname}
use rauc.Boot.Backend.{Backend}

-- `efi_bootentry`; the member `active` is never set.
pub record EfiBootentry : Type 0 where
  pub num : Text
  pub name : Text

abbrev is_xdigit : ℕ → Bool
is_xdigit c = (leb 48 c && leb c 57) || ((leb 97 c && leb c 102) || (leb 65 c && leb c 70))

-- `[0-9a-fA-F]{n}` and what follows it.
unfoldable pub take_hex : ℕ → Text → Option (Text × Text)
take_hex zero s = some ([], s)
take_hex (suc n) [] = none
take_hex (suc n) (c ∷ s) = elim (take_hex n s) [
  | none ↦ none
  | some (num, rest) ↦ if is_xdigit c then some (c ∷ num, rest) else none
]

-- What follows a prefix.
unfoldable pub after_prefix : Text → Text → Option Text
after_prefix p s = if has_prefix s p then some (drop (length p) s) else none

unfoldable pub before_tab : Text → Text
before_tab [] = []
before_tab (c ∷ s) = if c == 9 then [] else c ∷ before_tab s

-- `[\* ] (.+)$`
unfoldable pub entry_name : Text → Option Text
entry_name [] = none
entry_name (c ∷ []) = none
entry_name (c ∷ d ∷ []) = none
entry_name (c ∷ d ∷ n ∷ s) = if (c == b'*' || c == b' ') && d == b' ' then some (n ∷ s) else none

-- `^Boot([0-9a-fA-F]{4})[\* ] (.+)$` on one line. A line ends with a newline here: the tool prints no
-- other line end.
unfoldable pub entry_of : Text → Option EfiBootentry
entry_of line = elim (after_prefix (codes "Boot") line) [
  | none ↦ none
  | some s ↦ elim (take_hex 4 s) [
    | none ↦ none
    | some (num, rest) ↦ elim (entry_name rest) [
      | none ↦ none
      | some name ↦ some (record { num = num; name = before_tab name })
    ]
  ]
]

-- `^PREFIX([0-9a-fA-F]{4})$` on one line.
unfoldable pub number_of : Text → Text → Option Text
number_of prefix line = elim (after_prefix prefix line) [
  | none ↦ none
  | some s ↦ elim (take_hex 4 s) [
    | none ↦ none
    | some (num, rest) ↦ elim rest [ [] ↦ some num | c ∷ cs ↦ none ]
  ]
]

unfoldable pub no_space : Text → Bool
no_space [] = true
no_space (c ∷ s) = not (is_space c) && no_space s

-- `^BootOrder: (\S+)$` on one line.
unfoldable pub order_of : Text → Option Text
order_of line = elim (after_prefix (codes "BootOrder: ") line) [
  | none ↦ none
  | some [] ↦ none
  | some (c ∷ s) ↦ if no_space (c ∷ s) then some (c ∷ s) else none
]

-- The matches on the lines, and the first one.
unfoldable pub matches {ℓ} : {A : Type ℓ} → (Text → Option A) → List Text → List A
matches f [] = []
matches f (l ∷ ls) = let rest = matches f ls in elim (f l) [ none ↦ rest | some a ↦ a ∷ rest ]

unfoldable pub first_match {ℓ} : {A : Type ℓ} → (Text → Option A) → List Text → Option A
first_match f [] = none
first_match f (l ∷ ls) = let rest = first_match f ls in elim (f l) [ none ↦ rest | some a ↦ some a ]

-- `get_efi_entry_by_bootnum`
unfoldable pub get_efi_entry_by_bootnum : List EfiBootentry → Text → Option EfiBootentry
get_efi_entry_by_bootnum [] bootnum = none
get_efi_entry_by_bootnum (e ∷ es) bootnum =
    if strcmp0_eq (some bootnum) (some e.num) then some e else get_efi_entry_by_bootnum es bootnum

-- The entry of a bootname, as the loops over the entries find it.
unfoldable pub find_entry : Option Text → List EfiBootentry → Option EfiBootentry
find_entry bootname [] = none
find_entry bootname (e ∷ es) =
    if strcmp0_eq (some e.name) bootname then some e else find_entry bootname es

-- What `efi_bootorder_get` returns through its parameters.
pub record Bootorder : Type 0 where
  pub order : List EfiBootentry
  pub entries : List EfiBootentry
  pub bootnext : Option EfiBootentry
  pub bootcurrent : Option EfiBootentry

abbrev by_number : List EfiBootentry → Option Text → Option EfiBootentry
by_number entries none = none
by_number entries (some num) = get_efi_entry_by_bootnum entries num

-- The part of `efi_bootorder_get` after the entries.
unfoldable pub read_order : List EfiBootentry → List Text → Result Bootorder
read_order entries lines = elim (first_match order_of lines) [
  | none ↦ err bootchooser_failed
  | some order ↦ ok (record {
    order = matches (get_efi_entry_by_bootnum entries) (strsplit 44 order);
    entries = entries;
    bootnext = by_number entries (first_match (number_of (codes "BootNext: ")) lines);
    bootcurrent = by_number entries (first_match (number_of (codes "BootCurrent: ")) lines);
  })
]

-- The part of `efi_bootorder_get` that reads the output: without an entry it fails.
unfoldable pub parse_bootorder : List Text → Result Bootorder
parse_bootorder lines = elim (matches entry_of lines) [
  | [] ↦ err bootchooser_failed
  | e ∷ es ↦ read_order (e ∷ es) lines
]

-- The loop of `efi_modify_persistent_bootorder` that removes the slot.
unfoldable pub remove_entry : Option Text → List EfiBootentry → List EfiBootentry
remove_entry bootname [] = []
remove_entry bootname (e ∷ es) =
    let rest = remove_entry bootname es in
    if strcmp0_eq (some e.name) bootname then es else e ∷ rest

-- `g_strjoinv(",", …)` of the numbers.
unfoldable pub join_nums : List EfiBootentry → Text
join_nums [] = []
join_nums (e ∷ es) = let rest = join_nums es in elim es [ [] ↦ e.num | _ ∷ _ ↦ e.num ++ 44 ∷ rest ]

-- The new order of `efi_modify_persistent_bootorder`.
unfoldable pub new_order : Option Text → Bool → Bootorder → Result (List EfiBootentry)
new_order bootname prepend info =
    let kept = remove_entry bootname info.order in
    if prepend
    then elim (find_entry bootname info.entries) [ none ↦ err aborted | some e ↦ ok (e ∷ kept) ]
    else ok kept

-- The slot of the first entry that has one, in `r_efi_get_primary`.
unfoldable pub primary_of : Slots → List EfiBootentry → Option Slot
primary_of slots [] = none
primary_of slots (e ∷ es) =
    let rest = primary_of slots es in
    elim (find_by_bootname slots e.name) [ none ↦ rest | some s ↦ some s ]

-- What efi.c asks the file system for: the real path of a device, and the number of its partition in
-- /sys/class/block.
pub record Devices (World : Type 0) : Type 0 where
  pub realpath : World → Text → Option Text
  pub partition : World → Text → Result Text

module _ (t : Tools) (config : BootConfig) (devices : Devices t.World) where
  open t use {World, query, update}

  unfoldable pub efibootmgr : List Text → World → Result (Unit {0}) × World
  efibootmgr args w = let (c, w') = update (codes "efibootmgr" ∷ args) w in (checked c, w')

  -- `efi_bootorder_set`
  unfoldable pub efi_bootorder_set : Text → World → Result (Unit {0}) × World
  efi_bootorder_set order = efibootmgr (codes "--bootorder" ∷ order ∷ [])

  -- `efi_set_bootnext`
  unfoldable pub efi_set_bootnext : Text → World → Result (Unit {0}) × World
  efi_set_bootnext bootnumber = efibootmgr (codes "--bootnext" ∷ bootnumber ∷ [])

  -- `efi_bootorder_get`
  unfoldable pub efi_bootorder_get : World → Result Bootorder
  efi_bootorder_get w = do
    stdout ← stdout_of (query (codes "efibootmgr" ∷ []) w)
    parse_bootorder (strsplit 10 stdout)

  -- `efi_bootentry_create`
  unfoldable pub efi_bootentry_create : Slot → Text → Text → World → Result (Unit {0}) × World
  efi_bootentry_create slot loader cmdline w = elim slot.bootname [
    | none ↦ (err no_error, w)
    | some b ↦ elim (devices.realpath w slot.device) [
      | none ↦ (err bootchooser_failed, w)
      | some realdev ↦ elim (devices.partition w realdev) [
        | err e ↦ (err e, w)
        | ok part_num ↦
            efibootmgr
              (codes "--create-only"
                ∷ codes "--disk"
                ∷ realdev
                ∷ codes "--part"
                ∷ chomp part_num
                ∷ codes "--label"
                ∷ b
                ∷ codes "--loader"
                ∷ loader
                ∷ codes "--unicode"
                ∷ cmdline
                ∷ [])
              w
      ]
    ]
  ]

  abbrev both : Option Text → Option Text → Option (Text × Text)
  both none cmdline = none
  both (some loader) none = none
  both (some loader) (some cmdline) = some (loader, cmdline)

  -- The end of `efi_bootorder_prepare`, where no entry has the bootname.
  unfoldable pub create_missing : Slot → World → Result Bootorder × World
  create_missing slot w = elim (both slot.efi_loader slot.efi_cmdline) [
    | none ↦ (err bootchooser_failed, w)
    | some (loader, cmdline) ↦
        let (created, w') = efi_bootentry_create slot loader cmdline w in
        elim created [ err e ↦ (err e, w') | ok _ ↦ (efi_bootorder_get w', w') ]
  ]

  -- `efi_bootorder_prepare`
  unfoldable pub efi_bootorder_prepare : Slot → World → Result Bootorder × World
  efi_bootorder_prepare slot w = elim (efi_bootorder_get w) [
    | err e ↦ (err e, w)
    | ok info ↦ elim (find_entry slot.bootname info.entries) [
      | some e ↦ (ok info, w)
      | none ↦ create_missing slot w
    ]
  ]

  -- `efi_set_temp_primary`
  unfoldable pub efi_set_temp_primary : Slot → World → Result (Unit {0}) × World
  efi_set_temp_primary slot w =
      let (prepared, w') = efi_bootorder_prepare slot w in
      elim prepared [
        | err e ↦ (err e, w')
        | ok info ↦ elim (find_entry slot.bootname info.entries) [
          | none ↦ (err aborted, w')
          | some e ↦ efi_set_bootnext e.num w'
        ]
      ]

  abbrev pub without_error : Result (Unit {0}) × World → Result (Unit {0}) × World
  without_error (ok u, w) = (ok u, w)
  without_error (err e, w) = (err no_error, w)

  -- `efi_modify_persistent_bootorder`; a failure of the last call loses its error.
  unfoldable pub efi_modify_persistent_bootorder : Slot → Bool → World → Result (Unit {0}) × World
  efi_modify_persistent_bootorder slot prepend w =
      let (prepared, w') = efi_bootorder_prepare slot w in
      elim prepared [
        | err e ↦ (err e, w')
        | ok info ↦ elim (new_order slot.bootname prepend info) [
          | err e ↦ (err e, w')
          | ok order ↦ without_error (efi_bootorder_set (join_nums order) w')
        ]
      ]

  -- `r_efi_set_state`
  unfoldable pub efi_set_state : Slot → Bool → World → Result (Unit {0}) × World
  efi_set_state slot good = efi_modify_persistent_bootorder slot good

  -- `r_efi_get_primary`
  unfoldable pub efi_get_primary : World → Result Slot
  efi_get_primary w = do
    info ← efi_bootorder_get w
    elim (primary_of config.slots
        (elim info.bootnext [ none ↦ info.order | some e ↦ e ∷ info.order ])) [
          | none ↦ err bootchooser_parse_failed
          | some s ↦ ok s
        ]

  -- `r_efi_set_primary`
  unfoldable pub efi_set_primary : Slot → World → Result (Unit {0}) × World
  efi_set_primary slot w =
      if config.efi_use_bootnext
      then efi_set_temp_primary slot w
      else efi_modify_persistent_bootorder slot true w

  -- `r_efi_get_state`
  unfoldable pub efi_get_state : Slot → World → Result Bool
  efi_get_state slot w = do
    info ← efi_bootorder_get w
    ok (elim (find_entry slot.bootname info.order) [ none ↦ false | some e ↦ true ])

  -- `r_efi_get_current_bootname`; without a current entry the program reads through NULL.
  unfoldable pub efi_get_current_bootname : World → Result Text
  efi_get_current_bootname w = do
    info ← efi_bootorder_get w
    elim info.bootcurrent [
      | none ↦ err aborted
      | some e ↦ elim (find_by_bootname config.slots e.name) [
        | none ↦ err bootchooser_failed
        | some s ↦ ok e.name
      ]
    ]

  abbrev pub efi_backend : Backend World
  efi_backend = record {
    get_state = efi_get_state;
    set_state = efi_set_state;
    get_primary = efi_get_primary;
    set_primary = efi_set_primary;
  }
