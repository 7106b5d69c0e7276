-- ===== src/Mark/Order.antt =====
-- What `mark_run("bad", "other")` tells the boot loader.
use mathlib.Core.Path.{subst}
use rauc.Prelude.{
  inl, inr, ◌≡◌, ◌≢◌, refl, sym, ◌∙◌, false, Bool-cases, List, [], ◌∷◌, Text, codes, text_eq,
  text_eq_iff, All, All-mono, some, ok, install_mark_bootable,
}
use rauc.Slot.{Slot, Slots, get_booted}
use rauc.Machine.{Io, SystemConfig, Run, Event, state_set, act_ok, return, ◌>>◌}
use rauc.Machine.Hoare.{
  Hoare, Holds, On, >>-Hoare, act_ok-Hoare, with_error-Hoare, Hoare-error, Hoare-and, Holds-of_both,
}
use rauc.Mark.{
  mark_bad, mark_all_bad, mark_run, mark_body, run_branch, slot_names, get_slots_by_identifier,
}
use rauc.Mark.Laws.{IsOther, get_slots_by_identifier-IsOther}
use rauc.Install.Default.Order.{bootable, bad_bootable}

other_bootable :
    (n m : Text) (t : List Event) → m ≢ n → bootable n (state_set m false ∷ t) ≡ bootable n t
unfolding bootable
other_bootable n m t d = elim (Bool-cases (text_eq m n)) [
  | inl e ↦ absurd (d ((text_eq_iff m n).0 e))
  | inr e ↦ rw e refl
]

bad_keeps :
    (n m : Text) (t : List Event)
    → bootable n t ≡ false
    → bootable n (state_set m false ∷ t) ≡ false
unfolding bootable
bad_keeps n m t h = elim (Bool-cases (text_eq m n)) [ inl e ↦ rw e refl | inr e ↦ rw e h ]

All-keep :
    (n : Text) (ss : Slots)
    → All
        (λ s.
          (t : List Event) → bootable n t ≡ false → bootable n (state_set s.name false ∷ t) ≡ false)
        ss
All-keep n [] = tt
All-keep n (s ∷ ss) = (bad_keeps n s.name, All-keep n ss)

module _ (io : Io) where
  open io use {World}

  abbrev Any : Run World → Type 0
  Any r = Unit

  mark_bad-Hoare :
      (s : Slot) (S T : List Event → Type 0)
      → ((t : List Event) → S t → T (state_set s.name false ∷ t))
      → Hoare (On S) (mark_bad io s) (λ u. On T) (On S)
  unfolding mark_bad
  mark_bad-Hoare s S T f =
      with_error-Hoare (On S) (λ u. On T) (On S) install_mark_bootable
        (act_ok (λ u. state_set s.name false) (io.boot_set_state s false))
        (act_ok-Hoare T (λ u. state_set s.name false) (io.boot_set_state s false) S (λ u. f))

  mark_all_bad-keeps :
      (T : List Event → Type 0) (ss : Slots)
      → All (λ s. (t : List Event) → T t → T (state_set s.name false ∷ t)) ss
      → Hoare (On T) (mark_all_bad io ss) (λ u. On T) (On T)
  unfolding mark_all_bad
  mark_all_bad-keeps T [] h r p = p
  mark_all_bad-keeps T (s ∷ ss) h r p =
      >>-Hoare (On T) (On T) (λ u. On T) (On T) (mark_bad io s) (mark_all_bad io ss)
        (mark_bad-Hoare s T T h.0) (mark_all_bad-keeps T ss h.1) r p

  mark_all_bad-off :
      (ss : Slots)
      → Hoare Any (mark_all_bad io ss) (λ u r. All (λ s. bootable s.name r.trace ≡ false) ss) Any
  unfolding mark_all_bad
  mark_all_bad-off [] r p = tt
  mark_all_bad-off (s ∷ ss) r p =
      >>-Hoare Any (On off) (λ u r. off r.trace × All (λ s. bootable s.name r.trace ≡ false) ss) Any
        (mark_bad io s) (mark_all_bad io ss)
        (mark_bad-Hoare s (λ t. Unit) off (λ t h. bad_bootable s.name t))
        (Hoare-and (On off) (λ u. On off) Any (λ u r. All (λ s. bootable s.name r.trace ≡ false) ss)
          Any (mark_all_bad io ss)
          (Hoare-error (On off) (λ u. On off) (On off) Any (mark_all_bad io ss) (λ r h. tt)
            (mark_all_bad-keeps off ss (All-keep s.name ss)))
          (λ r h. mark_all_bad-off ss r tt))
        r p
    where
      off : List Event → Type 0
      off t = bootable s.name t ≡ false

  mark_run-bad :
      (config : SystemConfig) (identifier : Text) (ss : Slots) (r : Run World)
      → get_slots_by_identifier config.slots identifier ≡ ok ss
      → mark_run io config (codes "bad") identifier r
        ≡ (mark_all_bad io ss >> return (slot_names ss)) r
  unfolding mark_run mark_body run_branch text_eq
  mark_run-bad config identifier ss r e = rw e refl

  -- After the other slots were marked bad with success, none of them can be booted. Whether
  -- marking succeeded or not, it is the same for the booted slot as before.
  pub mark_run-bad_other :
      (config : SystemConfig) (b : Slot) (ss : Slots) (r : Run World)
      → get_booted config.slots ≡ some b
      → get_slots_by_identifier config.slots (codes "other") ≡ ok ss
      → Holds
          (λ n s. All (λ x. bootable x.name s.trace ≡ false) ss)
          (λ s. Unit)
          (mark_run io config (codes "bad") (codes "other") r)
        × (bootable b.name (mark_run io config (codes "bad") (codes "other") r).1.trace
            ≡ bootable b.name r.trace)
  mark_run-bad_other config b ss r e h =
      subst
        (λ x.
          Holds (λ n s. All (λ y. bootable y.name s.trace ≡ false) ss) Any x
          × (bootable b.name x.1.trace ≡ bootable b.name r.trace))
        (sym (mark_run-bad config (codes "other") ss r h))
        (
          >>-Hoare Any Others (λ n. Others) Any (mark_all_bad io ss) (return (slot_names ss))
              (mark_all_bad-off ss) (λ s q. q) r tt,
          Holds-of_both (On Same) ((mark_all_bad io ss >> return (slot_names ss)) r) (
              >>-Hoare (On Same) (On Same) (λ n. On Same) (On Same) (mark_all_bad io ss)
                (return (slot_names ss)) (mark_all_bad-keeps Same ss kept) (λ s q. q) r refl),
        )
    where
      Others : Run World → Type 0
      Others s = All (λ x. bootable x.name s.trace ≡ false) ss

      Same : List Event → Type 0
      Same t = bootable b.name t ≡ bootable b.name r.trace

      kept : All (λ s. (t : List Event) → Same t → Same (state_set s.name false ∷ t)) ss
      kept =
          All-mono (IsOther b) (λ s. (t : List Event) → Same t → Same (state_set s.name false ∷ t))
            ss (λ s o t q. other_bootable b.name s.name t o.differs ∙ q)
            (get_slots_by_identifier-IsOther config.slots b ss e h).0
