-- ===== src/Install/States/Laws.antt =====
-- The states that `determine_slot_states` gives to the slots.
use mathlib.Core.Path.{subst}
use rauc.Prelude.{
  ◌≡◌, ◌≢◌, refl, sym, ap, ◌∙◌, ◌⊎◌, inl, inr, true, false, Bool-cases, Option-cases, Option, none,
  some, [], ◌∷◌, ◌++◌, map, Text, codes, text_eq, text_eq_iff, strcmp0_eq, strcmp0_eq_iff, All,
  arith, ok, ok_injective,
}
use mathlib.Core.Option.{some-injective}
use rauc.Slot.{Slot, Slots, SlotState, lookup_slot, st_booted, st_active, st_inactive}
use rauc.Install.States.{
  find_booted, matches_bootslot, state_beside, mark_states, determine_slot_states,
}

-- The device of a slot with its links resolved, where that is possible.
abbrev pub real_device : (Text → Option Text) → Slot → Text
real_device realpath s = elim (realpath s.device) [ none ↦ s.device | some d ↦ d ]

-- The boot slot of the kernel command line is a slot's bootname, its name or its device.
abbrev pub Boots : (Text → Option Text) → Text → Slot → Type 0
Boots realpath bootslot s =
    (s.bootname ≡ some bootslot) ⊎ ((s.name ≡ bootslot) ⊎ (real_device realpath s ≡ bootslot))

-- The state of a slot next to the booted slot `b`: booted, active as its child, or inactive.
pub record Beside (b s : Slot) : Type 0 where
  pub booted : s.name ≡ b.name → s.state ≡ st_booted
  pub active : s.name ≢ b.name → s.parent ≡ some b.name → s.state ≡ st_active
  pub inactive : s.name ≢ b.name → s.parent ≢ some b.name → s.state ≡ st_inactive

-- A slot without its state.
abbrev pub stateless : Slot → Slot
stateless s = record s { state = st_inactive }

-- A table after `determine_slot_states`: the first slot that boots is the booted one, and the
-- others have their states next to it; or there is none, the system was booted from elsewhere and
-- every slot is inactive.
pub data Determined (realpath : Text → Option Text) (bootslot : Text) (slots slots' : Slots)
    : Type 0 where
  external :
      bootslot ≡ codes "_external_"
      → All (λ s. ¬ Boots realpath bootslot s) slots
      → All (λ s. s.state ≡ st_inactive) slots'
      → Determined realpath bootslot slots slots'
  beside :
      (before : Slots) (b : Slot) (after : Slots)
      → slots ≡ before ++ b ∷ after
      → All (λ s. ¬ Boots realpath bootslot s) before
      → Boots realpath bootslot b
      → All (Beside b) slots'
      → Determined realpath bootslot slots slots'

module _ (realpath : Text → Option Text) (bootslot : Text) where
  matches-Boots :
      (s : Slot) → matches_bootslot realpath bootslot s ≡ true → Boots realpath bootslot s
  unfolding matches_bootslot
  matches-Boots s h = elim (Bool-cases (strcmp0_eq s.bootname (some bootslot))) [
    | inl e ↦ inl ((strcmp0_eq_iff s.bootname (some bootslot)).0 e)
    | inr e ↦ elim (Bool-cases (text_eq s.name bootslot)) [
      | inl n ↦ inr (inl ((text_eq_iff s.name bootslot).0 n))
      | inr n ↦ inr (inr ((text_eq_iff (real_device realpath s) bootslot).0 (rw (e, n) at h)))
    ]
  ]

  unmatched :
      (s : Slot) → matches_bootslot realpath bootslot s ≡ false → ¬ Boots realpath bootslot s
  unfolding matches_bootslot
  unmatched s h (inl e) =
      let q = (strcmp0_eq_iff s.bootname (some bootslot)).1 e in let z = rw q at h in cc
  unmatched s h (inr (inl e)) = let q = (text_eq_iff s.name bootslot).1 e in ground arith
  unmatched s h (inr (inr e)) =
      let q = (text_eq_iff (real_device realpath s) bootslot).1 e in ground arith

  -- What `find_booted` finds is the first slot that boots.
  find_booted-first :
      (ss : Slots) (b : Slot)
      → find_booted realpath bootslot ss ≡ some b
      → (before : Slots) × (after : Slots) × (ss ≡ before ++ b ∷ after)
        × All (λ s. ¬ Boots realpath bootslot s) before
        × Boots realpath bootslot b
  unfolding find_booted
  find_booted-first [] b h = cc
  find_booted-first (s ∷ ss) b h = elim (Bool-cases (matches_bootslot realpath bootslot s)) [
    | inl e ↦
        let same : s ≡ b = some-injective s b (rw e at h) in
        (
          [],
          ss,
          ap (λ x. x ∷ ss) same,
          tt,
          subst (Boots realpath bootslot) same (matches-Boots s e),
        )
    | inr e ↦
        let (before, after, eq, others, boots) = find_booted-first ss b (rw e at h) in
        (s ∷ before, after, ap (λ x. s ∷ x) eq, (unmatched s e, others), boots)
  ]

  find_booted-none :
      (ss : Slots)
      → find_booted realpath bootslot ss ≡ none
      → All (λ s. ¬ Boots realpath bootslot s) ss
  unfolding find_booted
  find_booted-none [] h = tt
  find_booted-none (s ∷ ss) h = elim (Bool-cases (matches_bootslot realpath bootslot s)) [
    | inl e ↦ absurd (let z = rw e at h in cc)
    | inr e ↦ (unmatched s e, find_booted-none ss (rw e at h))
  ]

stateless-mark_states :
    (f : Slot → SlotState) (ss : Slots) → map stateless (mark_states f ss) ≡ map stateless ss
unfolding mark_states
stateless-mark_states f [] = refl
stateless-mark_states f (s ∷ ss) = ap (λ x. stateless s ∷ x) (stateless-mark_states f ss)

mark_states-All :
    (P : Slot → Type 0) (f : Slot → SlotState) (ss : Slots)
    → ((s : Slot) → P (record s { state = f s }))
    → All P (mark_states f ss)
unfolding mark_states
mark_states-All P f [] h = tt
mark_states-All P f (s ∷ ss) h = (h s, mark_states-All P f ss h)

state_beside-Beside : (b s : Slot) → Beside b (record s { state = state_beside b s })
unfolding state_beside
state_beside-Beside b s = record {
  booted = λ e. let q = (text_eq_iff s.name b.name).1 e in rw q refl;
  active = λ n e.
      let q = (strcmp0_eq_iff s.parent (some b.name)).1 e in
      elim (Bool-cases (text_eq s.name b.name)) [
        | inl t ↦ absurd (n ((text_eq_iff s.name b.name).0 t))
        | inr t ↦ rw t (rw q refl)
      ];
  inactive = λ n m. elim (Bool-cases (text_eq s.name b.name)) [
    | inl t ↦ absurd (n ((text_eq_iff s.name b.name).0 t))
    | inr t ↦ elim (Bool-cases (strcmp0_eq s.parent (some b.name))) [
      | inl p ↦ absurd (m ((strcmp0_eq_iff s.parent (some b.name)).0 p))
      | inr p ↦ rw t (rw p refl)
    ]
  ];
}

pub determine_slot_states-Determined :
    (realpath : Text → Option Text) (slots : Slots) (bootslot : Text) (slots' : Slots)
    → determine_slot_states realpath (some slots) (some bootslot) ≡ ok slots'
    → (map stateless slots' ≡ map stateless slots) × Determined realpath bootslot slots slots'
unfolding determine_slot_states
determine_slot_states-Determined realpath slots bootslot slots' h =
    elim (Option-cases (find_booted realpath bootslot slots)) [
      | inl e ↦ elim (Bool-cases (text_eq bootslot (codes "_external_"))) [
        | inl x ↦
            let q : mark_states (λ s. st_inactive) slots ≡ slots' =
              ok_injective (rw (determine_slot_states, e, x) at h) in
            (
              ap (map stateless) (sym q) ∙ stateless-mark_states (λ s. st_inactive) slots,
              external ((text_eq_iff bootslot (codes "_external_")).0 x)
                  (find_booted-none realpath bootslot slots e)
                  (subst (All (λ s. s.state ≡ st_inactive)) q (
                    mark_states-All (λ s. s.state ≡ st_inactive) (λ s. st_inactive) slots
                      (λ s. refl))),
            )
        | inr x ↦ absurd (let z = rw (determine_slot_states, e, x) at h in cc)
      ]
      | inr (b, e) ↦
          let q : mark_states (state_beside b) slots ≡ slots' =
            ok_injective (rw (determine_slot_states, e) at h) in
          let (before, after, eq, others, boots) = find_booted-first realpath bootslot slots b e in
          (
            ap (map stateless) (sym q) ∙ stateless-mark_states (state_beside b) slots,
            beside before b after eq others boots (
                subst (All (Beside b)) q
                  (mark_states-All (Beside b) (state_beside b) slots (state_beside-Beside b))),
          )
    ]

-- What the record says is what the function computes.
pub Beside-state_beside : (b s : Slot) → Beside b s → s.state ≡ state_beside b s
unfolding state_beside
Beside-state_beside b s h = elim (Bool-cases (text_eq s.name b.name)) [
  | inl t ↦ rw t (h.booted ((text_eq_iff s.name b.name).0 t))
  | inr t ↦
      let other : s.name ≢ b.name = λ n. let z = (text_eq_iff s.name b.name).1 n in ground arith in
      elim (Bool-cases (strcmp0_eq s.parent (some b.name))) [
        | inl p ↦ rw t (rw p (h.active other ((strcmp0_eq_iff s.parent (some b.name)).0 p)))
        | inr p ↦ rw t (
            rw p (
              h.inactive other
                (λ m. let z = (strcmp0_eq_iff s.parent (some b.name)).1 m in ground arith)))
      ]
]

abbrev name_of_first : Slots → Text
name_of_first [] = []
name_of_first (s ∷ ss) = s.name

abbrev others_of : Slots → Slots
others_of [] = []
others_of (s ∷ ss) = ss

lookup_first : (x b : Slot) (ss : Slots) → x.name ≡ b.name → lookup_slot (x ∷ ss) b.name ≡ some x
unfolding lookup_slot
lookup_first x b ss e = let q = (text_eq_iff x.name b.name).1 e in rw (lookup_slot, q) refl

lookup_later :
    (x b : Slot) (ss : Slots) → lookup_slot ss b.name ≢ none → lookup_slot (x ∷ ss) b.name ≢ none
unfolding lookup_slot
lookup_later x b ss n = ground arith

-- A slot of a table is found by its name, whatever the states are.
pub lookup_slot-stateless :
    (before after : Slots) (b : Slot) (ss : Slots)
    → map stateless ss ≡ map stateless (before ++ b ∷ after)
    → lookup_slot ss b.name ≢ none
lookup_slot-stateless [] after b [] e = absurd cc
lookup_slot-stateless (y ∷ before) after b [] e = absurd cc
lookup_slot-stateless [] after b (x ∷ ss) e =
    λ z. cc (sym (lookup_first x b ss (ap name_of_first e)) ∙ z)
lookup_slot-stateless (y ∷ before) after b (x ∷ ss) e =
    lookup_later x b ss (lookup_slot-stateless before after b ss (ap others_of e))
