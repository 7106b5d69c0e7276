-- ===== src/Install/Select/Oldest.antt =====
-- What `select_inactive_slot_class_member` chooses.
use rauc.Prelude.{
  ℕ, ◌≤◌, ◌≡◌, sym, ◌∙◌, Bool, true, false, ◌||◌, Option, none, some, [], ◌∷◌, Text, All, ltb,
  ltb→lt, if◌then◌else◌, arith, inl, inr, ◌⊎◌, Bool-cases,
}
use mathlib.Core.Path.{subst}
use mathlib.Core.Option.{some-injective}
use rauc.Slot.{Slot, Slots, SlotStatus}
use rauc.Install.Select.{Statuses, is_candidate, is_urgent, is_older, select_loop, select_inactive}

abbrev pub time : SlotStatus → ℕ
time s = elim s.installed_timestamp [ none ↦ 0 | some t ↦ t ]

-- `r` was installed no later than the candidate `s`, which is not urgent.
abbrev pub Precedes : Statuses → Text → Slot → Slot → Type 0
Precedes st c r s =
    is_candidate c s ≡ true
    → (is_urgent (st s.name) ≡ false) × (time (st r.name) ≤ time (st s.name))

abbrev SelectedAfter : Statuses → Slot → Option Slot → Type 0
SelectedAfter st r none = Unit
SelectedAfter st r (some b) = time (st r.name) ≤ time (st b.name)

abbrev Settled : Statuses → Option Slot → Type 0
Settled st none = Unit
Settled st (some b) = is_urgent (st b.name) ≡ false

older_time :
    (a b : SlotStatus)
    → is_urgent a ≡ false
    → is_urgent b ≡ false
    → is_older a.installed_timestamp b.installed_timestamp ≡ ltb (time a) (time b)
older_time a b h k = ground arith

module _ (st : Statuses) (c : Text) (s : Slot) (ss : Slots) where
  step_skip :
      (selected : Option Slot)
      → is_candidate c s ≡ false
      → select_loop false st c (s ∷ ss) selected ≡ select_loop false st c ss selected
  unfolding select_loop
  step_skip selected h = rw h

  step_urgent :
      (selected : Option Slot)
      → is_candidate c s ≡ true
      → is_urgent (st s.name) ≡ true
      → select_loop false st c (s ∷ ss) selected ≡ some s
  unfolding select_loop
  step_urgent selected h u = rw (h, u)

  step_first :
      is_candidate c s ≡ true
      → is_urgent (st s.name) ≡ false
      → select_loop false st c (s ∷ ss) none ≡ select_loop false st c ss (some s)
  unfolding select_loop
  step_first h u = rw (h, u)

  step_compare :
      (b : Slot)
      → is_candidate c s ≡ true
      → is_urgent (st s.name) ≡ false
      → is_urgent (st b.name) ≡ false
      → select_loop false st c (s ∷ ss) (some b)
        ≡ select_loop false st c ss
            (if ltb (time (st s.name)) (time (st b.name)) then some s else some b)
  unfolding select_loop
  step_compare b h u v = rw (h, u, older_time (st s.name) (st b.name) u v)

  step_older :
      (b : Slot)
      → is_candidate c s ≡ true
      → is_urgent (st s.name) ≡ false
      → is_urgent (st b.name) ≡ false
      → ltb (time (st s.name)) (time (st b.name)) ≡ true
      → select_loop false st c (s ∷ ss) (some b) ≡ select_loop false st c ss (some s)
  step_older b h u v less = rw less at (step_compare b h u v)

  step_keep :
      (b : Slot)
      → is_candidate c s ≡ true
      → is_urgent (st s.name) ≡ false
      → is_urgent (st b.name) ≡ false
      → ltb (time (st s.name)) (time (st b.name)) ≡ false
      → select_loop false st c (s ∷ ss) (some b) ≡ select_loop false st c ss (some b)
  step_keep b h u v more = rw more at (step_compare b h u v)

abbrev OnSome : (Slot → Type 0) → Option Slot → Type 0
OnSome P none = Unit
OnSome P (some s) = P s

module _ (st : Statuses) (c : Text) where
  oldest_loop :
      (ss : Slots) (selected : Option Slot) (r : Slot)
      → select_loop false st c ss selected ≡ some r
      → is_urgent (st r.name) ≡ false
      → Settled st selected
      → SelectedAfter st r selected × All (Precedes st c r) ss
  unfolding select_loop
  oldest_loop [] none r h calm settled = (tt, tt)
  oldest_loop [] (some b) r h calm settled = (ground arith, tt)
  oldest_loop (s ∷ ss) none r h calm settled = elim (Bool-cases (is_candidate c s)) [
    | inr out ↦ (
      tt,
      (
        (λ k. cc (out, k)),
        (oldest_loop ss none r (sym (step_skip st c s ss none out) ∙ h) calm tt).1,
      ),
    )
    | inl fit ↦ elim (Bool-cases (is_urgent (st s.name))) [
      | inl u ↦ absurd (ground (arith, step_urgent st c s ss none fit u))
      | inr u ↦
          let (le, rest) =
            oldest_loop ss (some s) r (sym (step_first st c s ss fit u) ∙ h) calm u in
          (tt, ((λ k. (u, le)), rest))
    ]
  ]
  oldest_loop (s ∷ ss) (some b) r h calm settled = elim (Bool-cases (is_candidate c s)) [
    | inr out ↦
        let (le, rest) =
          oldest_loop ss (some b) r (sym (step_skip st c s ss (some b) out) ∙ h) calm settled in
        (le, ((λ k. cc (out, k)), rest))
    | inl fit ↦ elim (Bool-cases (is_urgent (st s.name))) [
      | inl u ↦ absurd (ground (arith, step_urgent st c s ss (some b) fit u))
      | inr u ↦ elim (Bool-cases (ltb (time (st s.name)) (time (st b.name)))) [
        | inl less ↦
            let (le, rest) =
              oldest_loop ss (some s) r (sym (step_older st c s ss b fit u settled less) ∙ h) calm
                u in
            (
              omega (arith, ltb→lt (time (st s.name)) (time (st b.name)) less),
              ((λ k. (u, le)), rest),
            )
        | inr more ↦
            let (le, rest) =
              oldest_loop ss (some b) r (sym (step_keep st c s ss b fit u settled more) ∙ h) calm
                settled in
            (le, ((λ k. (u, ground arith)), rest))
      ]
    ]
  ]

  -- With a central status file, a slot that is chosen without urgency (it has a time of
  -- installation and did not fail) was installed no later than any other inactive slot of its
  -- class, and none of those is urgent.
  pub select_inactive-oldest :
      (slots : Slots) (r : Slot)
      → select_inactive false st slots c ≡ some r
      → is_urgent (st r.name) ≡ false
      → All (Precedes st c r) slots
  unfolding select_inactive
  select_inactive-oldest slots r h calm = (oldest_loop slots none r h calm tt).1

  none_chosen : (per_slot : Bool) (r : Slot) → ¬ (select_loop per_slot st c [] none ≡ some r)
  unfolding select_loop
  none_chosen per_slot r h = cc

  last_chosen :
      (per_slot : Bool) (b r : Slot) → select_loop per_slot st c [] (some b) ≡ some r → b ≡ r
  unfolding select_loop
  last_chosen per_slot b r h = some-injective b r h

  step_later :
      (per_slot : Bool) (s : Slot) (ss : Slots) (selected : Option Slot)
      → is_candidate c s ≡ true
      → (per_slot || is_urgent (st s.name)) ≡ false
      → (select_loop per_slot st c (s ∷ ss) selected ≡ select_loop per_slot st c ss selected)
        ⊎ ((is_candidate c s ≡ true)
            × ((select_loop per_slot st c (s ∷ ss) selected ≡ some s)
                ⊎ (select_loop per_slot st c (s ∷ ss) selected
                    ≡ select_loop per_slot st c ss (some s))))
  unfolding select_loop
  step_later false s ss none fit later = inr (fit, inr (rw (fit, later)))
  step_later false s ss (some b) fit later =
      elim (Bool-cases (is_older (st s.name).installed_timestamp (st b.name).installed_timestamp)) [
        | inl less ↦ inr (fit, inr (rw (fit, later, less)))
        | inr more ↦ inl (rw (fit, later, more))
      ]
  step_later true s ss selected fit later = cc

  -- The loop skips a slot, returns it, or makes it the candidate.
  select_step :
      (per_slot : Bool) (s : Slot) (ss : Slots) (selected : Option Slot)
      → (select_loop per_slot st c (s ∷ ss) selected ≡ select_loop per_slot st c ss selected)
        ⊎ ((is_candidate c s ≡ true)
            × ((select_loop per_slot st c (s ∷ ss) selected ≡ some s)
                ⊎ (select_loop per_slot st c (s ∷ ss) selected
                    ≡ select_loop per_slot st c ss (some s))))
  unfolding select_loop
  select_step per_slot s ss selected = elim (Bool-cases (is_candidate c s)) [
    | inr out ↦ inl (rw out)
    | inl fit ↦ elim (Bool-cases (per_slot || is_urgent (st s.name))) [
      | inl now ↦ inr (fit, inl (ground arith))
      | inr later ↦ step_later per_slot s ss selected fit later
    ]
  ]

  -- What holds of every candidate of the table holds of the chosen slot.
  chosen_loop :
      (P : Slot → Type 0) (per_slot : Bool) (ss : Slots) (selected : Option Slot) (r : Slot)
      → All (λ s. is_candidate c s ≡ true → P s) ss
      → OnSome P selected
      → select_loop per_slot st c ss selected ≡ some r
      → P r
  chosen_loop P per_slot [] none r all q h = absurd (none_chosen per_slot r h)
  chosen_loop P per_slot [] (some b) r all q h = subst P (last_chosen per_slot b r h) q
  chosen_loop P per_slot (s ∷ ss) selected r all q h = elim (select_step per_slot s ss selected) [
    | inl skip ↦ chosen_loop P per_slot ss selected r all.1 q (sym skip ∙ h)
    | inr (fit, inl now) ↦ subst P (some-injective s r (sym now ∙ h)) (all.0 fit)
    | inr (fit, inr next) ↦ chosen_loop P per_slot ss (some s) r all.1 (all.0 fit) (sym next ∙ h)
  ]

  pub select_inactive-chosen :
      (P : Slot → Type 0) (per_slot : Bool) (slots : Slots) (r : Slot)
      → All (λ s. is_candidate c s ≡ true → P s) slots
      → select_inactive per_slot st slots c ≡ some r
      → P r
  unfolding select_inactive
  select_inactive-chosen P per_slot slots r all h = chosen_loop P per_slot slots none r all tt h
