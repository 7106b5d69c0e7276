-- ===== src/Install/Select/Group.antt =====
-- The safety of the target group: an installation writes to no slot that is in use.
use mathlib.Core.Option.{some-injective}
use rauc.Prelude.{
  map, ◌≡◌, ◌≢◌, sym, ◌∙◌, ap, inl, inr, Bool, true, Bool-cases, Option-cases, Option, none, some,
  List, [], ◌∷◌, Text, text_eq, text_eq_iff, strcmp0_eq_iff, All, All-mono, All-conj, arith, ok,
}
use rauc.Slot.{
  Slot, Slots, SlotState, st_booted, st_inactive, is_inactive, lookup_slot, get_parent_root,
  list_contains, get_root_classes,
}
use rauc.Config.Links.Laws.{IsFlat, get_parent_root_flat}
use rauc.Install.States.{state_beside, determine_slot_states}
use rauc.Install.States.Laws.{
  Beside, stateless, Determined, external, beside, determine_slot_states-Determined,
  Beside-state_beside, lookup_slot-stateless,
}
use rauc.Install.Select.{
  Statuses, is_candidate, select_inactive, selected_roots, insert_target, group_loop,
  determine_target_install_group,
}
use rauc.Install.Select.Oldest.{select_inactive-chosen}

-- What config_file.c establishes of a slot of the table: it is found under its name, its parent is
-- a root, and only a root is booted.
pub record WellFormed (slots : Slots) (s : Slot) : Type 0 where
  pub found : lookup_slot slots s.name ≡ some s
  pub flat : IsFlat slots s.name
  pub booted_root : s.state ≡ st_booted → s.parent ≡ none

pub lookup_slot-name :
    (slots : Slots) (k : Text) (s : Slot) → lookup_slot slots k ≡ some s → s.name ≡ k
unfolding lookup_slot
lookup_slot-name [] k s h = cc
lookup_slot-name (x ∷ ss) k s h = ground (arith, text_eq_iff x.name k, lookup_slot-name ss k s)

is_inactive_state : (x : SlotState) → is_inactive x ≡ true → x ≡ st_inactive
is_inactive_state x h = ground arith

candidate_inactive : (c : Text) (s : Slot) → is_candidate c s ≡ true → s.state ≡ st_inactive
candidate_inactive c s h = is_inactive_state s.state (ground arith)

candidates :
    (P : Slot → Type 0) (c : Text) (slots : Slots)
    → All (λ s. s.state ≡ st_inactive → P s) slots
    → All (λ s. is_candidate c s ≡ true → P s) slots
candidates P c [] h = tt
candidates P c (s ∷ ss) h = ((λ k. h.0 (candidate_inactive c s k)), candidates P c ss h.1)

-- Only inactive slots are selected as roots.
selected-All :
    (P : Slot → Type 0) (per_slot : Bool) (st : Statuses) (slots : Slots) (cs : List Text)
    → All (λ s. s.state ≡ st_inactive → P s) slots
    → All P (selected_roots per_slot st slots cs)
unfolding selected_roots
selected-All P per_slot st slots [] h = tt
selected-All P per_slot st slots (c ∷ cs) h =
    elim (Option-cases (select_inactive per_slot st slots c)) [
      | inl e ↦ rw (e, selected_roots) (selected-All P per_slot st slots cs h)
      | inr (s, e) ↦
          rw (e, selected_roots)
            (
              select_inactive-chosen st c P per_slot slots s (candidates P c slots h) e,
              selected-All P per_slot st slots cs h,
            )
    ]

contained :
    (P : Slot → Type 0) (ss : Slots) (root : Slot)
    → All P ss
    → list_contains ss root ≡ true
    → (x : Slot) × P x × (x.name ≡ root.name)
unfolding list_contains
contained P [] root h e = cc
contained P (s ∷ ss) root h e = elim (Bool-cases (text_eq s.name root.name)) [
  | inl hit ↦ (s, h.0, (text_eq_iff s.name root.name).0 hit)
  | inr miss ↦ contained P ss root h.1 (ground arith)
]

insert-All :
    (P : Slot → Type 0) (class : Text) (s : Slot) (g : List (Text × Slot))
    → P s
    → All (λ e. P e.1) g
    → All (λ e. P e.1) (insert_target class s g)
unfolding insert_target
insert-All P class s [] p h = (p, tt)
insert-All P class s ((c, t) ∷ g) p h = elim (Bool-cases (text_eq c class)) [
  | inl hit ↦ rw hit (p, h.1)
  | inr miss ↦ rw miss (h.0, insert-All P class s g p h.1)
]

beside_inactive :
    (b s : Slot) → s.name ≢ b.name → s.parent ≢ some b.name → state_beside b s ≡ st_inactive
unfolding state_beside
beside_inactive b s n p =
    ground (arith, text_eq_iff s.name b.name, strcmp0_eq_iff s.parent (some b.name))

beside_name : (b x : Slot) → state_beside b x ≡ st_inactive → x.name ≢ b.name
unfolding state_beside
beside_name b x h n = ground (arith, text_eq_iff x.name b.name)

some_parent : (s : Slot) (p : Text) → s.parent ≡ some p → s.parent ≢ none
some_parent s p up h = cc

beside_booted : (b s : Slot) → s.name ≡ b.name → state_beside b s ≡ st_booted
unfolding state_beside
beside_booted b s n = ground (arith, text_eq_iff s.name b.name)

-- A slot whose root has the name of an inactive slot is inactive.
member_inactive :
    (slots : Slots) (b x s root : Slot)
    → lookup_slot slots b.name ≢ none
    → WellFormed slots s
    → s.state ≡ state_beside b s
    → state_beside b x ≡ st_inactive
    → x.name ≡ root.name
    → get_parent_root slots s ≡ some root
    → s.state ≡ st_inactive
member_inactive slots b x s root present wf e f n r =
    let (found, r', cases) = get_parent_root_flat slots s wf.found wf.flat in
    let same : x.name ≡ found.name =
      n ∙ ap (λ (t : Slot). t.name) (some-injective root found (sym r ∙ r')) in
    elim cases [
      | inl (self, dangling) ↦
          e
          ∙ beside_inactive b s (λ q. beside_name b x f (same ∙ ap (λ (t : Slot). t.name) self ∙ q))
              (λ q. present (dangling b.name q))
      | inr (p, up, l, top) ↦
          e
          ∙ beside_inactive b s (λ q. some_parent s p up (wf.booted_root (e ∙ beside_booted b s q)))
              (λ q.
                beside_name b x f
                  (same ∙ lookup_slot-name slots p found l ∙ some-injective p b.name (sym up ∙ q)))
    ]

group-All :
    (Q P : Slot → Type 0) (table selected : Slots) (ss : Slots) (g : List (Text × Slot))
    → ((s root x : Slot)
        → P s
        → Q x
        → x.name ≡ root.name
        → get_parent_root table s ≡ some root
        → s.state ≡ st_inactive)
    → All Q selected
    → All P ss
    → All (λ e. e.1.state ≡ st_inactive) g
    → All (λ e. e.1.state ≡ st_inactive) (group_loop table selected ss g)
unfolding group_loop
group-All Q P table selected [] g k q p h = h
group-All Q P table selected (s ∷ ss) g k q p h = elim (Option-cases (get_parent_root table s)) [
  | inl e ↦ rw (e, group_loop) (group-All Q P table selected ss g k q p.1 h)
  | inr (root, e) ↦ elim (Bool-cases (list_contains selected root)) [
    | inr out ↦ rw (e, group_loop) (rw out (group-All Q P table selected ss g k q p.1 h))
    | inl within ↦
        let (x, qx, n) = contained Q selected root q within in
        rw (e, group_loop)
          (rw within (
            group-All Q P table selected ss (insert_target s.sclass s g) k q p.1
              (insert-All (λ t. t.state ≡ st_inactive) s.sclass s g (k s root x p.0 qx n e) h)))
  ]
]

-- After a successful `determine_slot_states`, every slot of the target group is inactive: neither
-- the booted slot nor a child of it is ever a target. The table is well formed: names are
-- unique, groups are flat and the booted slot has no parent.
pub target_group-inactive :
    (realpath : Text → Option Text) (slots : Slots) (bootslot : Text) (slots' : Slots)
    (per_slot : Bool) (st : Statuses)
    → determine_slot_states realpath (some slots) (some bootslot) ≡ ok slots'
    → All (WellFormed slots') slots'
    → All (λ e. e.1.state ≡ st_inactive) (determine_target_install_group per_slot st slots')
unfolding determine_target_install_group
target_group-inactive realpath slots bootslot slots' per_slot st h wf =
    let (same, cases) = determine_slot_states-Determined realpath slots bootslot slots' h in
    by_cases same cases
  where
    roots : List Text
    roots = get_root_classes slots'

    by_cases :
        map stateless slots' ≡ map stateless slots
        → Determined realpath bootslot slots slots'
        → All
            (λ e. e.1.state ≡ st_inactive)
            (group_loop slots' (selected_roots per_slot st slots' roots) slots' [])
    by_cases same (external x none_boots all) =
        group-All (λ x. Unit {0}) (λ s. s.state ≡ st_inactive) slots' _ slots' []
          (λ s root x p q n e. p)
          (selected-All (λ x. Unit {0}) per_slot st slots' roots
            (All-mono _ _ slots' (λ s p q. tt) all))
          all tt
    by_cases same (beside before b after eq others boots besides) =
        let present = lookup_slot-stateless before after b slots' (same ∙ ap (map stateless) eq) in
        let all =
          All-mono (Beside b) (λ s. s.state ≡ state_beside b s) slots' (Beside-state_beside b)
            besides in
        group-All (λ x. state_beside b x ≡ st_inactive)
          (λ s. WellFormed slots' s × (s.state ≡ state_beside b s)) slots' _ slots' []
          (λ s root x p q n e. member_inactive slots' b x s root present p.0 p.1 q n e)
          (selected-All (λ x. state_beside b x ≡ st_inactive) per_slot st slots' roots
            (All-mono _ _ slots' (λ s p q. sym p ∙ q) all))
          (All-conj (WellFormed slots') _ slots' wf all) tt
