-- ===== src/StatusFile.antt =====
-- src/status_file.c: slot statuses in a key file. A group is a function from keys to values; the
-- removal of a key from the file in memory once it was read is left out, as no key is read twice.
pub mod Laws
pub mod Global
mod Tests
use rauc.Prelude.{
  inl, inr, Bool-cases, ◌-◌, ℕ, ◌^◌, Bool, true, false, Option, none, some, List, [], ◌∷◌, ◌++◌,
  Text, codes, text_eq, has_prefix, ltb, if◌then◌else◌,
}
use rauc.Slot.{Checksum, SlotStatus, Slot, Slots, clear_status}

-- The formats of GLib: numbers, and times in ISO 8601 (`%Y-%m-%dT%H:%M:%SZ`). A time is a number of
-- microseconds since 1970.
pub record Formats : Type 0 where
  pub print_uint64 : ℕ → Text
  pub parse_uint64 : Text → Option ℕ
  pub format_time : ℕ → Text
  pub parse_time : Text → Option ℕ

abbrev pub Group : Type 0
Group = Text → Option Text

-- `g_key_file_set_value`, and `g_key_file_remove_key` with `none`.
unfoldable pub set_key : Text → Option Text → Group → Group
set_key key value g = λ j. if text_eq key j then value else g j

-- `key_file_consume_string`: an empty value is an error.
unfoldable pub consume_string : Group → Text → Option Text
consume_string g key = elim (g key) [
  | none ↦ none
  | some s ↦ elim s [ [] ↦ none | c ∷ cs ↦ some (c ∷ cs) ]
]

module _ (f : Formats) where
  -- `g_key_file_get_uint64`: 0 where there is no number.
  unfoldable pub get_uint64 : Group → Text → ℕ
  get_uint64 g key = elim (g key) [
    | none ↦ 0
    | some s ↦ elim (f.parse_uint64 s) [ none ↦ 0 | some n ↦ n ]
  ]

  -- A count that does not fit 32 bits is 0.
  unfoldable pub get_count : Group → Text → ℕ
  get_count g key = let count = get_uint64 g key in if ltb (2 ^ 32 - 1) count then 0 else count

  unfoldable pub get_time : Group → Text → Option ℕ
  get_time g key = elim (consume_string g key) [ none ↦ none | some s ↦ f.parse_time s ]

  unfoldable pub get_checksum : Group → Checksum
  get_checksum g = elim (consume_string g (codes "sha256")) [
    | none ↦ record { digest = none; size = 0 }
    | some d ↦ record { digest = some d; size = get_uint64 g (codes "size") }
  ]

  -- `status_file_get_slot_status`: the key `installed.transaction` is not read.
  unfoldable pub get_slot_status : Group → SlotStatus → SlotStatus
  get_slot_status g old = record (clear_status old) {
    bundle_compatible = consume_string g (codes "bundle.compatible");
    bundle_version = consume_string g (codes "bundle.version");
    bundle_description = consume_string g (codes "bundle.description");
    bundle_build = consume_string g (codes "bundle.build");
    bundle_hash = consume_string g (codes "bundle.hash");
    status = consume_string g (codes "status");
    checksum = get_checksum g;
    installed_timestamp = get_time g (codes "installed.timestamp");
    installed_count = get_count g (codes "installed.count");
    activated_timestamp = get_time g (codes "activated.timestamp");
    activated_count = get_count g (codes "activated.count");
  }

  abbrev pub time_value : Option ℕ → Option Text
  time_value none = none
  time_value (some t) = some (f.format_time t)

  abbrev pub count_value : ℕ → Option Text
  count_value n = if ltb 0 n then some (f.print_uint64 n) else none

  abbrev pub size_value : Checksum → Option Text
  size_value c = elim c.digest [ none ↦ none | some d ↦ some (f.print_uint64 c.size) ]

  -- `status_file_set_slot_status`
  unfoldable pub set_slot_status : SlotStatus → Group → Group
  set_slot_status st g = set_key (codes "activated.count") (count_value st.activated_count) (
      set_key (codes "activated.timestamp") (time_value st.activated_timestamp) (
        set_key (codes "installed.count") (count_value st.installed_count) (
          set_key (codes "installed.timestamp") (time_value st.installed_timestamp) (
            set_key (codes "installed.transaction") st.installed_txn (
              set_key (codes "size") (size_value st.checksum) (
                set_key (codes "sha256") st.checksum.digest (
                  set_key (codes "status") st.status (
                    set_key (codes "bundle.hash") st.bundle_hash (
                      set_key (codes "bundle.build") st.bundle_build (
                        set_key (codes "bundle.description") st.bundle_description (
                          set_key (codes "bundle.version") st.bundle_version
                            (set_key (codes "bundle.compatible") st.bundle_compatible g))))))))))))

  -- The groups of a file. A file that is missing or broken has none.
  abbrev pub KeyFile : Type 0
  KeyFile = Text → Option Group

  -- `key_file_init_from_shared_status_file`: the file without the groups that are written anew.
  unfoldable pub key_file_init_from_shared_status_file : Text → KeyFile → KeyFile
  key_file_init_from_shared_status_file keep_prefix file =
      λ n. if has_prefix n keep_prefix then none else file n

  -- The group of a slot.
  abbrev pub slot_group : Text → Text
  slot_group name = codes "slot." ++ name

  abbrev pub group_or_empty : Option Group → Group
  group_or_empty none = λ key. none
  group_or_empty (some g) = g

  unfoldable pub save_slot : Text → Option SlotStatus → KeyFile → KeyFile
  save_slot name none file = file
  save_slot name (some st) file = λ n.
      if text_eq (slot_group name) n
      then some (set_slot_status st (group_or_empty (file (slot_group name))))
      else file n

  unfoldable pub save_slots : (Text → Option SlotStatus) → Slots → KeyFile → KeyFile
  save_slots statuses [] file = file
  save_slots statuses (s ∷ ss) file =
      save_slots statuses ss (save_slot s.name (statuses s.name) file)

  -- `save_slot_status_globally`: what it saves, from the file that is there.
  unfoldable pub save_slot_status_globally : (Text → Option SlotStatus) → Slots → KeyFile → KeyFile
  save_slot_status_globally statuses slots file =
      save_slots statuses slots (key_file_init_from_shared_status_file (codes "slot.") file)

  -- The status that `r_slot_status_load_globally` gives a slot that has none yet.
  unfoldable pub slot_status_load_globally : SlotStatus → KeyFile → Text → SlotStatus
  slot_status_load_globally default file name = elim (file (slot_group name)) [
    | none ↦ default
    | some g ↦ get_slot_status g default
  ]
