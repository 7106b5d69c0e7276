-- ===== src/Prelude/Results.antt =====
-- Results of functions that report a `GError`: its domain and code, without the message. `aborted`
-- stands for the end of the program by `g_error` or an assertion, `no_error` for a failure that
-- sets no error, as that of `g_return_val_if_fail`.
use Prim.Native.Nat.{ℕ}
use mathlib.Core.Path.{◌≡◌, refl, ap}
use mathlib.Core.Logic.{◌⊎◌, inl, inr}
use rauc.Prelude.Strings.{Text}

pub data Error : Type 0 where
  spawn_failed spawn_communication spawn_abnormal : Error
  spawn_exit : ℕ → Error
  bootchooser_failed bootchooser_parse_failed bootchooser_not_supported : Error
  slot_failed slot_no_config slot_no_bootslot slot_no_slot_with_state_booted : Error
  install_failed install_compat_mismatch install_version_mismatch install_mounted : Error
  install_rejected install_mark_bootable install_mark_nonbootable install_target_group : Error
  config_invalid_format config_parent config_child_has_bootname config_parent_loop : Error
  update_no_handler update_failed semver_parse : Error
  file_noent file_failed : Error
  hash_index_size hash_index_not_found hash_index_modified : Error
  verity_inval verity_io verity_perm : Error
  manifest_check manifest_parse key_file_invalid_value key_file_not_found : Error
  aborted no_error : Error

-- A function of the program returns its value, or fails with an error.
pub data Result {ℓ} (A : Type ℓ) : Type ℓ where
  err : Error → Result A
  ok : A → Result A

-- Going on after a success, with the value.
infixl 5 ◌>>=◌
abbrev pub ◌>>=◌ {ℓ κ} : {A : Type ℓ} {B : Type κ} → Result A → (A → Result B) → Result B
err x >>= next = err x
ok value >>= next = next value

-- Going on after a check.
infixl 5 ◌>>◌
abbrev pub ◌>>◌ {ℓ} : {B : Type ℓ} → Result (Unit {0}) → Result B → Result B
err x >> rest = err x
ok u >> rest = rest

-- How a child process that was started for its output ended: `r_subprocess_new` and
-- `g_subprocess_communicate` failed, it did not exit normally, or it exited with a code.
pub data Output : Type 0 where
  not_started not_communicated abnormal : Output
  exited : ℕ → Text → Output

-- `g_subprocess_wait_check`: the child could not be started or waited for, or it failed.
pub data Check : Type 0 where
  not_started : Check
  check_failed : ℕ → Check
  success : Check

pub Result-cases {ℓ} :
    {A : Type ℓ} (r : Result A) → ((a : A) × (r ≡ ok a)) ⊎ ((e : Error) × (r ≡ err e))
Result-cases (ok a) = inl (a, refl)
Result-cases (err e) = inr (e, refl)

abbrev ok_or {ℓ} : {A : Type ℓ} → A → Result A → A
ok_or d (ok a) = a
ok_or d (err e) = d

pub ok_injective {ℓ} : {A : Type ℓ} {a b : A} → ok a ≡ ok b → a ≡ b
ok_injective {a = a} e = ap (ok_or a) e

-- A chain that succeeded: its first part did, and so did the rest on its value.
pub >>=-eq-ok {ℓ κ} :
    {A : Type ℓ} {B : Type κ} (first : Result A) (next : A → Result B) {b : B}
    → (first >>= next) ≡ ok b
    → (a : A) × (first ≡ ok a) × (next a ≡ ok b)
>>=-eq-ok (err x) next e = cc
>>=-eq-ok (ok value) next e = (value, refl, e)

pub >>-eq-ok {ℓ} :
    {B : Type ℓ} (check : Result (Unit {0})) (rest : Result B) {b : B}
    → (check >> rest) ≡ ok b
    → (check ≡ ok tt) × (rest ≡ ok b)
>>-eq-ok (err x) rest e = cc
>>-eq-ok (ok u) rest e = (refl, e)
