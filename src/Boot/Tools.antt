-- ===== src/Boot/Tools.antt =====
-- What the boot loader backends call: child processes, and the part of the configuration that
-- they read. The program only sees how a child ended and what it printed.
use rauc.Prelude.{
  ◌≡◌, refl, Bool, ℕ, Option, none, some, List, [], Text, codes, Result, ok, err, Output, Check,
  ◌==◌, if◌then◌else◌, spawn_failed, spawn_communication, spawn_abnormal, spawn_exit,
}
use rauc.Slot.{Slots}

-- `r_subprocess_newv` on an argument vector. `query` is a child that is started for its output
-- (`fw_printenv`, `grub-editenv list`, `barebox-state -g`) and changes nothing; `update` is one
-- that is waited for (`fw_setenv`, `grub-editenv set`, `barebox-state -s`).
pub record Tools : Type 1 where
  pub World : Type 0
  pub query : List Text → World → Output
  pub update : List Text → World → Check × World

-- The members of `RaucConfig` that the backends read. config_file.c refuses negative attempts.
pub record BootConfig : Type 0 where
  pub slots : Slots
  pub system_bootloader : Option Text
  pub boot_default_attempts : ℕ
  pub boot_attempts_primary : ℕ
  pub grubenv_path : Option Text
  pub system_bb_statename : Option Text
  pub system_bb_dtbpath : Option Text
  pub custom_bootloader_backend : Option Text
  pub efi_use_bootnext : Bool

-- `printf("%s", s)`, as the C library prints NULL.
abbrev pub print_string : Option Text → Text
print_string none = codes "(null)"
print_string (some s) = s

-- `g_string_new(s)` and `g_string_append(g, s)`, to which NULL is the empty string.
abbrev pub string_new : Option Text → Text
string_new none = []
string_new (some s) = s

-- The checks between the end of a child and the use of its output.
unfoldable pub stdout_of : Output → Result Text
stdout_of Output.not_started = err spawn_failed
stdout_of Output.not_communicated = err spawn_communication
stdout_of Output.abnormal = err spawn_abnormal
stdout_of (Output.exited ret stdout) = if ret == 0 then ok stdout else err (spawn_exit ret)

unfoldable pub checked : Check → Result (Unit {0})
checked Check.not_started = err spawn_failed
checked (Check.check_failed code) = err (spawn_exit code)
checked Check.success = ok tt

-- An optional attempts count: 0 stands for 'unset'.
unfoldable pub attempts_or : ℕ → ℕ → ℕ
attempts_or default n = if n == 0 then default else n

pub checked-ok : (c : Check) → checked c ≡ ok tt → c ≡ Check.success
unfolding checked
checked-ok Check.not_started h = cc
checked-ok (Check.check_failed n) h = cc
checked-ok Check.success h = refl
