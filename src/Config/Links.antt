-- ===== src/Config/Links.antt =====
-- The parent links of the slot table: the loop at the end of `parse_slots` that resolves parent
-- names, and `fix_grandparent_links`, which makes every child refer to the root of its group.
pub mod Laws
mod Tests
use rauc.Prelude.{
  ℕ, zero, suc, ◌≡◌, Bool, true, false, Option, none, some, List, [], ◌∷◌, map, Text, text_eq,
  if◌then◌else◌, Result, ok, err, Error, config_parent, config_child_has_bootname,
  config_parent_loop, ◌>>=◌,
}
use rauc.Slot.{Slot, Slots, lookup_slot}

-- `slot->parent` of the slot with this name.
unfoldable pub parent_of : Slots → Text → Option Text
parent_of slots name = elim (lookup_slot slots name) [ none ↦ none | some s ↦ s.parent ]

-- `slot->parent = realparent`
unfoldable pub set_parent : Slots → Text → Text → Slots
set_parent [] name p = []
set_parent (s ∷ ss) name p =
    if text_eq s.name name then record s { parent = some p } ∷ ss else s ∷ set_parent ss name p

-- A slot as it is parsed, with the name of its parent.
pub record Parsed : Type 0 where
  pub slot : Slot
  pub parent_name : Option Text

-- The loop `Add parent pointers` over the slots that are left: the parent is a slot of the
-- table, and the child has no bootname.
resolve : Slots → List Parsed → Slots → Result Slots
resolve table [] slots = ok slots
resolve table (c ∷ cs) slots =
    let skip = resolve table cs slots in
    elim c.parent_name [
      | none ↦ skip
      | some p ↦ elim (lookup_slot table p) [
        | none ↦ err config_parent
        | some parent ↦
            let next = resolve table cs (set_parent slots c.slot.name p) in
            elim c.slot.bootname [ none ↦ next | some b ↦ err config_child_has_bootname ]
      ]
    ]

unfoldable pub add_parents : List Parsed → Result Slots
unfolding resolve
add_parents parsed = let table = map (λ (c : Parsed). c.slot) parsed in resolve table parsed table

-- The loop up the parents, with the steps that are left before it gives up.
unfoldable pub climb : ℕ → Slots → Text → Option Text
climb zero slots p = elim (parent_of slots p) [ none ↦ some p | some q ↦ none ]
climb (suc steps) slots p = elim (parent_of slots p) [
  | none ↦ some p
  | some q ↦ climb steps slots q
]

-- The number of steps that `fix_grandparent_links` allows.
abbrev pub max_steps : ℕ
max_steps = 100

-- The update of one slot whose parent is `p` and whose root is `root`.
unfoldable pub relink : Slots → Text → Text → Text → Slots
relink slots name p root = if text_eq root p then slots else set_parent slots name root

-- `fix_grandparent_links`, from the names that the iteration has left.
unfoldable pub fix_grandparent_links : List Text → Slots → Result Slots
fix_grandparent_links [] slots = ok slots
fix_grandparent_links (n ∷ ns) slots = elim (parent_of slots n) [
  | none ↦ fix_grandparent_links ns slots
  | some p ↦ elim (climb max_steps slots p) [
    | none ↦ err config_parent_loop
    | some root ↦ fix_grandparent_links ns (relink slots n p root)
  ]
]
