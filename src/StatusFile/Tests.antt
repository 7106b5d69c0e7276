-- ===== src/StatusFile/Tests.antt =====
-- A status in a file, with times and numbers written by one byte for each unit.
use mathlib.Core.Option
use mathlib.Core.Option.{some-injective}
use mathlib.Core.Path.{subst}
use rauc.Prelude.{
  ◌<◌, ◌*◌, ◌/◌, ap, if◌then◌else◌, ℕ, zero, suc, ◌≡◌, ◌≢◌, refl, none, some, Option, [], ◌∷◌, Text,
  codes, text_eq, length, arith,
}
use rauc.Slot.{SlotStatus}
use rauc.Samples.{empty_status}
use rauc.StatusFile.{Formats, Group, get_slot_status, set_slot_status, KeyFile}
use rauc.StatusFile.Laws.{IsFormats, IsStorable, year_10000, get-set_slot_status}

abbrev strokes : ℕ → Text
strokes zero = 124 ∷ []
strokes (suc n) = 124 ∷ strokes n

abbrev count_strokes : Text → Option ℕ
count_strokes [] = none
count_strokes (c ∷ s) = some (length s)

abbrev formats : Formats
formats = record {
  print_uint64 = strokes;
  parse_uint64 = count_strokes;
  format_time = λ t. strokes (t / 1000000);
  parse_time = λ s. Option.map (λ n. n * 1000000) (count_strokes s);
}

strokes_back : (n : ℕ) → count_strokes (strokes n) ≡ some n
strokes_back zero = refl
strokes_back (suc n) = ap (λ k. some k) (length_strokes n)
  where
    length_strokes : (n : ℕ) → length (strokes n) ≡ suc n
    length_strokes zero = refl
    length_strokes (suc n) = ap suc (length_strokes n)

strokes_nonempty : (n : ℕ) → strokes n ≢ []
strokes_nonempty zero e = cc
strokes_nonempty (suc n) e = cc

formats-IsFormats : IsFormats formats
formats-IsFormats = record {
  number = λ n h. strokes_back n;
  time = λ t h. ap (Option.map (λ n. n * 1000000)) (strokes_back (t / 1000000));
  time_nonempty = λ t. strokes_nonempty (t / 1000000);
}

abbrev stored : SlotStatus
stored = record empty_status {
  bundle_compatible = some (codes "board");
  status = some (codes "ok");
  checksum = record { digest = some (codes "d1"); size = 3 };
  installed_txn = some (codes "t1");
  installed_timestamp = some 2500000;
  installed_count = 1;
}

stored-IsStorable : IsStorable stored
stored-IsStorable = record {
  compatible = λ e. ground arith;
  version = λ e. cc;
  description = λ e. cc;
  build = λ e. cc;
  hash = λ e. cc;
  status = λ e. ground arith;
  digest = λ e. ground arith;
  size = omega arith;
  no_size = λ e. cc;
  installed = omega arith;
  activated = omega arith;
  installed_time = λ t e. subst (λ n. n < year_10000) (some-injective 2500000 t e) (omega arith);
  activated_time = λ t e. cc;
}

abbrev no_keys : Group
no_keys key = none

abbrev system_file : KeyFile formats
system_file n = if text_eq n (codes "system") then some (λ key. some (codes "x")) else none

get-set_slot_status_example :
    get_slot_status formats (set_slot_status formats stored no_keys) empty_status
    ≡ record stored { installed_txn = none; installed_timestamp = some 2000000 }
get-set_slot_status_example =
    get-set_slot_status formats formats-IsFormats stored empty_status no_keys stored-IsStorable
