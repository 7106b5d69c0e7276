-- ===== src/Mark/Laws.antt =====
-- The slots that the identifier "other" names.
use rauc.Prelude.{
  ◌≡◌, ◌≢◌, refl, Bool-cases, Option-cases, Option, none, some, [], ◌∷◌, codes, text_eq,
  text_eq_iff, All, ok, err, inl, inr, ok_injective, slot_no_slot_with_state_booted,
}
use mathlib.Core.Path.{subst}
use rauc.Slot.{Slot, Slots, get_booted}
use rauc.Mark.{or_failed, other_slots, get_slots_by_identifier}

-- A root slot of the class of the booted one that can be booted and is another slot.
pub record IsOther (b s : Slot) : Type 0 where
  pub class : s.sclass ≡ b.sclass
  pub root : s.parent ≡ none
  pub bootable : s.bootname ≢ none
  pub differs : s.name ≢ b.name

other_slots-IsOther : (b : Slot) (ss : Slots) → All (IsOther b) (other_slots b ss)
unfolding other_slots
other_slots-IsOther b [] = tt
other_slots-IsOther b (s ∷ ss) = elim (Bool-cases (text_eq s.sclass b.sclass)) [
  | inr c ↦ rw c (other_slots-IsOther b ss)
  | inl c ↦ elim (Option-cases s.parent) [
    | inr (p, e) ↦ rw (c, e) (other_slots-IsOther b ss)
    | inl e ↦ elim (Option-cases s.bootname) [
      | inl n ↦ rw (c, e, n) (other_slots-IsOther b ss)
      | inr (n, q) ↦ elim (Bool-cases (text_eq s.name b.name)) [
        | inl d ↦ rw (c, e, q, d) (other_slots-IsOther b ss)
        | inr d ↦
            rw (c, e, q, d)
              (
                record {
                  class = (text_eq_iff s.sclass b.sclass).0 c;
                  root = refl;
                  bootable = λ z. cc z;
                  differs = λ z. cc (d, (text_eq_iff s.name b.name).1 z);
                },
                other_slots-IsOther b ss,
              )
      ]
    ]
  ]
]

or_failed-ok :
    (P : Slot → Type 0) (xs ss : Slots) → All P xs → or_failed xs ≡ ok ss → All P ss × (ss ≢ [])
or_failed-ok P [] ss h e = cc
or_failed-ok P (x ∷ xs) ss h e = subst (λ l. All P l × (l ≢ [])) (ok_injective e) (h, λ n. cc n)

-- Where the identifier "other" names slots, there is at least one, and each is another slot than
-- the booted one, of its class, without a parent and with a bootname. So marking the others bad
-- never marks the running system.
pub get_slots_by_identifier-IsOther :
    (slots : Slots) (b : Slot) (ss : Slots)
    → get_booted slots ≡ some b
    → get_slots_by_identifier slots (codes "other") ≡ ok ss
    → All (IsOther b) ss × (ss ≢ [])
unfolding get_slots_by_identifier text_eq
get_slots_by_identifier-IsOther slots b ss e h =
    or_failed-ok (IsOther b) (other_slots b slots) ss (other_slots-IsOther b slots) (
      subst
        (λ (g : Option Slot).
          (elim g [
            | none ↦ err slot_no_slot_with_state_booted
            | some x ↦ or_failed (other_slots x slots)
          ])
          ≡ ok ss)
        e h)
