-- ===== src/Config/Links/Laws.antt =====
-- After `fix_grandparent_links` the groups are flat.
use rauc.Prelude.{
  ℕ, zero, suc, ◌≡◌, refl, Option-cases, ◌⊎◌, inl, inr, none, some, List, [], ◌∷◌, Text, text_eq,
  text_eq_iff, All, length, if◌then◌else◌, arith, ok,
}
use rauc.Slot.{Slot, Slots, lookup_slot, get_parent_root, parent_root_loop}
use rauc.Config.Links.{parent_of, set_parent, climb, relink, max_steps, fix_grandparent_links}

parent_of-set_parent :
    (slots : Slots) (n r x p : Text)
    → parent_of slots n ≡ some p
    → parent_of (set_parent slots n r) x ≡ (if text_eq n x then some r else parent_of slots x)
unfolding parent_of set_parent lookup_slot
parent_of-set_parent [] n r x p h = cc
parent_of-set_parent (s ∷ ss) n r x p h = ground (
  arith,
  text_eq_iff s.name n,
  text_eq_iff s.name x,
  text_eq_iff n x,
  parent_of-set_parent ss n r x p,
)

-- The slot of this name has no parent, or one that is a root.
abbrev pub IsFlat : Slots → Text → Type 0
IsFlat slots x = (p : Text) → parent_of slots x ≡ some p → parent_of slots p ≡ none

climb_root :
    (f : ℕ) (slots : Slots) (p r : Text) → climb f slots p ≡ some r → parent_of slots r ≡ none
unfolding climb
climb_root zero slots p r h = ground arith
climb_root (suc f) slots p r h = elim (Option-cases (parent_of slots p)) [
  | inl e ↦ ground arith
  | inr (q, e) ↦ climb_root f slots q r (ground arith)
]

parent_of-relink :
    (slots : Slots) (n p r x : Text)
    → parent_of slots n ≡ some p
    → parent_of (relink slots n p r) x ≡ (if text_eq n x then some r else parent_of slots x)
unfolding relink
parent_of-relink slots n p r x h =
    ground (arith, text_eq_iff r p, text_eq_iff n x, parent_of-set_parent slots n r x p h)

relink-IsFlat_self :
    (slots : Slots) (n p r : Text)
    → parent_of slots n ≡ some p
    → parent_of slots r ≡ none
    → IsFlat (relink slots n p r) n
relink-IsFlat_self slots n p r h root q e = ground (
  arith,
  text_eq_iff n n,
  text_eq_iff n q,
  parent_of-relink slots n p r n h,
  parent_of-relink slots n p r q h,
)

relink-IsFlat :
    (slots : Slots) (n p r x : Text)
    → parent_of slots n ≡ some p
    → parent_of slots r ≡ none
    → IsFlat slots x
    → IsFlat (relink slots n p r) x
relink-IsFlat slots n p r x h root flat q e = ground (
  arith,
  text_eq_iff n x,
  text_eq_iff n q,
  flat q,
  parent_of-relink slots n p r x h,
  parent_of-relink slots n p r q h,
)

-- One round of the loop that succeeds, and what it passes to the rounds after it.
round_cases :
    (n : Text) (ns : List Text) (slots fixed : Slots)
    → fix_grandparent_links (n ∷ ns) slots ≡ ok fixed
    → ((parent_of slots n ≡ none) × (fix_grandparent_links ns slots ≡ ok fixed))
      ⊎ ((p : Text) × (r : Text) × (parent_of slots n ≡ some p)
          × (parent_of slots r ≡ none)
          × (fix_grandparent_links ns (relink slots n p r) ≡ ok fixed))
unfolding fix_grandparent_links
round_cases n ns slots fixed h = elim (Option-cases (parent_of slots n)) [
  | inl e ↦ inl (e, ground arith)
  | inr (p, e) ↦ elim (Option-cases (climb max_steps slots p)) [
    | inl c ↦ absurd (ground arith)
    | inr (r, c) ↦ inr (p, r, e, climb_root max_steps slots p r c, ground arith)
  ]
]

fix_keeps_flat :
    (ns : List Text) (slots fixed : Slots) (x : Text)
    → fix_grandparent_links ns slots ≡ ok fixed
    → IsFlat slots x
    → IsFlat fixed x
unfolding fix_grandparent_links
fix_keeps_flat [] slots fixed x h flat q e = ground (arith, flat q)
fix_keeps_flat (n ∷ ns) slots fixed x h flat q e = elim (round_cases n ns slots fixed h) [
  | inl (root, k) ↦ fix_keeps_flat ns slots fixed x k flat q e
  | inr (p, r, up, root, k) ↦
      fix_keeps_flat ns (relink slots n p r) fixed x k (relink-IsFlat slots n p r x up root flat) q
        e
]

-- When `fix_grandparent_links` succeeds, every slot that the iteration visited has no parent, or
-- its parent has none.
pub fix_grandparent_links-IsFlat :
    (ns : List Text) (slots fixed : Slots)
    → fix_grandparent_links ns slots ≡ ok fixed
    → All (IsFlat fixed) ns
fix_grandparent_links-IsFlat [] slots fixed h = tt
fix_grandparent_links-IsFlat (n ∷ ns) slots fixed h = elim (round_cases n ns slots fixed h) [
  | inl (root, k) ↦
      (fix_keeps_flat ns slots fixed n k (λ q e. cc), fix_grandparent_links-IsFlat ns slots fixed k)
  | inr (p, r, up, root, k) ↦ (
    fix_keeps_flat ns (relink slots n p r) fixed n k (relink-IsFlat_self slots n p r up root),
    fix_grandparent_links-IsFlat ns (relink slots n p r) fixed k,
  )
]

flat_parent :
    (slots : Slots) (s up : Slot) (p : Text)
    → lookup_slot slots s.name ≡ some s
    → IsFlat slots s.name
    → s.parent ≡ some p
    → lookup_slot slots p ≡ some up
    → up.parent ≡ none
unfolding parent_of
flat_parent slots s up p h flat e l = ground (arith, flat p)

root_in_two :
    (k : ℕ) (slots : Slots) (s up : Slot) (p : Text)
    → s.parent ≡ some p
    → lookup_slot slots p ≡ some up
    → up.parent ≡ none
    → parent_root_loop (suc (suc k)) slots s ≡ some up
unfolding parent_root_loop
root_in_two k slots s up p h l root = ground arith

root_in_one :
    (k : ℕ) (slots : Slots) (s : Slot) → s.parent ≡ none → parent_root_loop (suc k) slots s ≡ some s
unfolding parent_root_loop
root_in_one k slots s h = ground arith

root_dangling :
    (k : ℕ) (slots : Slots) (s : Slot) (p : Text)
    → s.parent ≡ some p
    → lookup_slot slots p ≡ none
    → parent_root_loop (suc k) slots s ≡ some s
unfolding parent_root_loop
root_dangling k slots s p h l = ground arith

not_in_empty : (k : Text) (s : Slot) → ¬ (lookup_slot [] k ≡ some s)
unfolding lookup_slot
not_in_empty k s h = cc

-- The loop of `r_slot_get_parent_root` ends on a flat slot of the table: at the slot itself, where
-- it has no parent in the table, or at its parent, which has none.
pub get_parent_root_flat :
    (slots : Slots) (s : Slot)
    → lookup_slot slots s.name ≡ some s
    → IsFlat slots s.name
    → (root : Slot) × (get_parent_root slots s ≡ some root)
      × (((root ≡ s) × ((p : Text) → s.parent ≡ some p → lookup_slot slots p ≡ none))
          ⊎ ((p : Text) × (s.parent ≡ some p)
              × (lookup_slot slots p ≡ some root)
              × (root.parent ≡ none)))
unfolding get_parent_root
get_parent_root_flat [] s h flat = absurd (not_in_empty s.name s h)
get_parent_root_flat (x ∷ xs) s h flat = elim (Option-cases s.parent) [
  | inl e ↦ (s, root_in_one (suc (length xs)) (x ∷ xs) s e, inl (refl, λ p h. cc (e, h)))
  | inr (p, e) ↦ elim (Option-cases (lookup_slot (x ∷ xs) p)) [
    | inl l ↦ (s, root_dangling (suc (length xs)) (x ∷ xs) s p e l, inl (refl, λ q h. ground arith))
    | inr (up, l) ↦
        let root = flat_parent (x ∷ xs) s up p h flat e l in
        (up, root_in_two (length xs) (x ∷ xs) s up p e l root, inr (p, e, l, root))
  ]
]
