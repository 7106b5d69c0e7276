-- ===== src/Boot/Custom/Tests.antt =====
-- Runs of the custom backend on a program held in memory.
use rauc.Prelude.{
  ◌≡◌, refl, Bool, true, false, some, List, [], ◌∷◌, ◌++◌, Text, codes, text_eq, text_eq_refl,
  strcmp0_eq, if◌then◌else◌, ok, Output, Check,
}
use rauc.Samples.{boot_config, rootfs_b}
use rauc.Boot.Tools.{Tools, BootConfig, checked}
use rauc.Boot.Names.{find_by_bootname}
use rauc.Boot.Custom.{
  custom_backend_set, custom_get_primary, custom_set_primary, custom_get_state, custom_set_state,
}
use rauc.Boot.Custom.Laws.{CustomLaws, word, custom_get-set}

abbrev backend : Text
backend = codes "/usr/bin/boot"

-- The primary bootname, and the bootnames that are bad.
abbrev Memory : Type 0
Memory = Text × (Text → Bool)

abbrev query_memory : List Text → Memory → Output
query_memory (p ∷ c ∷ []) w = Output.exited 0 (w.0 ++ 10 ∷ [])
query_memory (p ∷ c ∷ b ∷ []) w = Output.exited 0 (word (w.1 b) ++ 10 ∷ [])
query_memory _ w = Output.not_started

abbrev update_memory : List Text → Memory → Check × Memory
update_memory (p ∷ c ∷ b ∷ []) w = (Check.success, (b, w.1))
update_memory (p ∷ c ∷ b ∷ s ∷ []) w =
    (Check.success, (w.0, λ j. if text_eq b j then text_eq s (codes "good") else w.1 j))
update_memory _ w = (Check.not_started, w)

abbrev memory : Tools
memory = record { World = Memory; query = query_memory; update = update_memory }

word_back : (good : Bool) → text_eq (word good) (codes "good") ≡ good
unfolding text_eq
word_back true = refl
word_back false = refl

memory_laws : CustomLaws memory backend
memory_laws = record {
  primary = λ w. w.0;
  states = λ w. w.1;
  get_primary = λ w. refl;
  get_state = λ w b. refl;
  set_primary = λ w b h. refl;
  set_state = λ w b good h. rw (text_eq_refl b) (word_back good);
}

abbrev custom_config : BootConfig
custom_config = record boot_config { custom_bootloader_backend = some backend }

abbrev start : Memory
start = (codes "A", λ b. true)

-- B is made primary, and marked bad.
custom_get-set_example :
    (custom_get_primary memory custom_config
        (custom_set_primary memory custom_config rootfs_b start).1
      ≡ ok rootfs_b)
    × (custom_get_state memory custom_config rootfs_b
          (custom_set_state memory custom_config rootfs_b false start).1
        ≡ ok false)
unfolding find_by_bootname strcmp0_eq text_eq custom_set_primary custom_set_state custom_backend_set
    checked
custom_get-set_example =
    custom_get-set memory custom_config backend memory_laws refl rootfs_b (codes "B") false start
      refl (refl, tt) refl refl refl
