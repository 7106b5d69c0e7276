-- ===== src/Boot/Uboot/Tests.antt =====
-- Runs of the U-Boot backend on an environment held in memory.
use rauc.Prelude.{
  ◌≡◌, ◌≢◌, refl, true, false, Option, none, some, List, [], ◌∷◌, ◌++◌, Text, codes, text_eq,
  strcmp0_eq, chomp, strsplit, strtoull, if◌then◌else◌, ok, Output, Check, arith, ◌>>=◌,
}
use rauc.Samples.{boot_config, rootfs_a, rootfs_b}
use rauc.Boot.Tools.{Tools, stdout_of, checked}
use rauc.Boot.Uboot.{
  uboot_backend, boot_order, left_key, lists_name, env_get, env_set, attempts_left, get_state,
  remove_from_order, set_state, find_slot, find_primary, get_primary, set_primary,
}
use rauc.Boot.Uboot.Contract.{IsListed, uboot_backend-IsBackend}
use rauc.Boot.Uboot.Laws.{FwLaws, stored}
use rauc.Boot.Names.{find_by_bootname}
use rauc.Boot.Uboot.State.{set_state-bad, set_state-good}

abbrev Env : Type 0
Env = Text → Option Text

abbrev answer : Text → Option Text → Output
answer k none = Output.exited 1 []
answer k (some v) = Output.exited 0 (k ++ (61 ∷ (v ++ 10 ∷ [])))

abbrev query_env : List Text → Env → Output
query_env (c ∷ k ∷ r) w = answer k (w k)
query_env _ w = Output.not_started

abbrev update_env : List Text → Env → Check × Env
update_env (c ∷ k ∷ v ∷ r) w = (Check.success, λ j. if text_eq k j then stored v else w j)
update_env _ w = (Check.not_started, w)

abbrev pub memory : Tools
memory = record { World = Env; query = query_env; update = update_env }

pub memory_laws : FwLaws memory
memory_laws = record {
  view = λ w. w;
  printenv = λ w k v h. ground arith;
  printenv_none = λ w k h. ground arith;
  setenv = λ w k v j h. refl;
}

-- A is first on the order, B has one attempt left.
abbrev pub env : Env
env k =
    if text_eq k boot_order
    then some (codes "A B")
    else if text_eq k (left_key (some (codes "A")))
    then some (codes "3")
    else if text_eq k (left_key (some (codes "B")))
    then some (codes "1")
    else none

primary_at_start : get_primary memory boot_config env ≡ ok rootfs_a
unfolding get_primary env_get stdout_of chomp strsplit find_primary find_slot attempts_left strtoull
    strcmp0_eq left_key text_eq
primary_at_start = refl

set_state-bad_example :
    let w' = (set_state memory boot_config rootfs_a false env).1 in
    (get_state memory rootfs_a w' ≢ ok true) × (get_primary memory boot_config w' ≢ ok rootfs_a)
unfolding set_state remove_from_order env_get stdout_of env_set checked text_eq
set_state-bad_example =
    set_state-bad memory memory_laws boot_config rootfs_a env rootfs_a refl (omega arith) refl

set_state-good_example :
    get_state memory rootfs_b (set_state memory boot_config rootfs_b true env).1 ≡ (
      env_get memory boot_order env >>= λ order.
      ok (lists_name (some (codes "B")) (strsplit 32 order)))
unfolding set_state env_set checked
set_state-good_example =
    set_state-good memory memory_laws boot_config rootfs_b env refl (omega arith)

pub listed : IsListed boot_config.slots rootfs_b
unfolding find_by_bootname strcmp0_eq text_eq
listed = record {
  name = codes "B";
  named = refl;
  nonempty = λ e. ground arith;
  graphic = (refl, tt);
  first = refl;
}

pub primary_set : ((uboot_backend memory boot_config).set_primary rootfs_b env).0 ≡ ok tt
unfolding set_primary env_set checked
primary_set = refl

uboot_backend-IsBackend_example :
    (uboot_backend memory boot_config).get_state rootfs_b
      ((uboot_backend memory boot_config).set_primary rootfs_b env).1
    ≡ ok true
unfolding set_primary env_set checked
uboot_backend-IsBackend_example =
    (uboot_backend-IsBackend memory memory_laws boot_config (omega arith)
        (omega arith)).primary_good
      rootfs_b env listed primary_set
