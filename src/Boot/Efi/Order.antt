-- ===== src/Boot/Efi/Order.antt =====
-- The boot order that efi.c writes, as it reads it.
use rauc.Prelude.{
  ◌≡◌, ◌≢◌, refl, sym, ap, ◌∙◌, inl, inr, true, false, Bool-cases, Option-cases, none, some, List,
  [], ◌∷◌, Text, strcmp0_eq, strcmp0_eq_iff, ok, ok_injective,
}
use mathlib.Core.Option.{some-injective}
use rauc.Slot.{Slot, Slots}
use rauc.Boot.Names.{find_by_bootname}
use rauc.Boot.Efi.{EfiBootentry, Bootorder, find_entry, remove_entry, new_order, primary_of}

-- A bootname is that of one entry at most.
abbrev pub IsOnce : Text → List EfiBootentry → Type 0
IsOnce b [] = Unit
IsOnce b (e ∷ es) =
    (strcmp0_eq (some e.name) (some b) ≡ true → find_entry (some b) es ≡ none) × IsOnce b es

find_entry-name :
    (b : Text) (es : List EfiBootentry) (e : EfiBootentry)
    → find_entry (some b) es ≡ some e
    → e.name ≡ b
unfolding find_entry
find_entry-name b [] e h = cc
find_entry-name b (x ∷ es) e h = elim (Bool-cases (strcmp0_eq (some x.name) (some b))) [
  | inl is ↦
      let same : x ≡ e = some-injective x e (rw is at h) in
      ap (λ y. y.name) (sym same)
      ∙ some-injective x.name b ((strcmp0_eq_iff (some x.name) (some b)).0 is)
  | inr isnt ↦ find_entry-name b es e (rw isnt at h)
]

find_entry-remove_entry :
    (b : Text) (es : List EfiBootentry)
    → IsOnce b es
    → find_entry (some b) (remove_entry (some b) es) ≡ none
unfolding find_entry remove_entry
find_entry-remove_entry b [] o = refl
find_entry-remove_entry b (x ∷ es) (o, os) = elim (Bool-cases (strcmp0_eq (some x.name) (some b))) [
  | inl is ↦ rw is (o is)
  | inr isnt ↦ rw isnt (rw isnt (find_entry-remove_entry b es os))
]

prepended :
    (b : Text) (info : Bootorder) (order : List EfiBootentry)
    → new_order (some b) true info ≡ ok order
    → (e : EfiBootentry) × (e.name ≡ b) × (e ∷ remove_entry (some b) info.order ≡ order)
unfolding new_order
prepended b info order h = elim (Option-cases (find_entry (some b) info.entries)) [
  | inl e ↦ absurd (let z = rw e at h in cc)
  | inr (e, f) ↦ (e, find_entry-name b info.entries e f, ok_injective (rw f at h))
]

first_primary :
    (slots : Slots) (s : Slot) (e : EfiBootentry) (es : List EfiBootentry)
    → find_by_bootname slots e.name ≡ some s
    → primary_of slots (e ∷ es) ≡ some s
unfolding primary_of
first_primary slots s e es h = rw (primary_of, h) refl

first_entry :
    (b : Text) (e : EfiBootentry) (es : List EfiBootentry)
    → strcmp0_eq (some e.name) (some b) ≡ true
    → find_entry (some b) (e ∷ es) ≡ some e
unfolding find_entry
first_entry b e es h = rw h refl

named_slot :
    (slots : Slots) (n : Text) (s : Slot) → find_by_bootname slots n ≡ some s → s.bootname ≡ some n
unfolding find_by_bootname
named_slot [] n s h = cc
named_slot (x ∷ xs) n s h = elim (Bool-cases (strcmp0_eq (some n) x.bootname)) [
  | inl q ↦
      let same : x ≡ s = some-injective x s (rw q at h) in
      ap (λ (y : Slot). y.bootname) (sym same) ∙ sym ((strcmp0_eq_iff (some n) x.bootname).0 q)
  | inr q ↦ named_slot xs n s (rw q at h)
]

-- The primary slot has an entry.
pub primary_of-named :
    (slots : Slots) (s : Slot) (b : Text) (es : List EfiBootentry)
    → s.bootname ≡ some b
    → find_entry (some b) es ≡ none
    → primary_of slots es ≢ some s
unfolding primary_of find_entry
primary_of-named slots s b [] named h = cc
primary_of-named slots s b (e ∷ es) named h =
    elim (Bool-cases (strcmp0_eq (some e.name) (some b))) [
      | inl q ↦ absurd (let z = rw q at h in cc)
      | inr q ↦ elim (Option-cases (find_by_bootname slots e.name)) [
        | inl n ↦
            let later = primary_of-named slots s b es named (rw q at h) in
            λ z. later (rw (primary_of, n) at z)
        | inr (x, f) ↦ λ z.
            let same : x ≡ s = some-injective x s (rw (primary_of, f) at z) in
            let eq : some e.name ≡ some b =
              sym (named_slot slots e.name x f) ∙ ap (λ (y : Slot). y.bootname) same ∙ named in
            let t = (strcmp0_eq_iff (some e.name) (some b)).1 eq in cc
      ]
    ]

-- The order that efi.c writes to make a slot primary, or good, names it first: it is the primary slot
-- and is found; and the one that it writes to make it bad does not name it, where its bootname is
-- that of one entry of the order at most. The slot is the first of its bootname.
pub new_order-lem :
    (slots : Slots) (s : Slot) (b : Text) (info : Bootorder) (good bad : List EfiBootentry)
    → find_by_bootname slots b ≡ some s
    → IsOnce b info.order
    → new_order (some b) true info ≡ ok good
    → new_order (some b) false info ≡ ok bad
    → (primary_of slots good ≡ some s)
      × (find_entry (some b) good ≢ none)
      × (find_entry (some b) bad ≡ none)
unfolding new_order
new_order-lem slots s b info good bad first once hg hb =
    let (e, named, order) = prepended b info good hg in
    let kept = remove_entry (some b) info.order in
    let is = (strcmp0_eq_iff (some e.name) (some b)).1 (ap some named) in
    (
      ap (primary_of slots) (sym order)
          ∙ first_primary slots s e kept (ap (find_by_bootname slots) named ∙ first),
      (λ z. cc (sym (first_entry b e kept is) ∙ ap (find_entry (some b)) order ∙ z)),
      ap (find_entry (some b)) (sym (ok_injective hb)) ∙ find_entry-remove_entry b info.order once,
    )
