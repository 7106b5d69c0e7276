-- ===== src/Boot/Names.antt =====
-- The names of a boot order, and the slots that carry them.
use rauc.Prelude.{
  text_eq, text_ne, false, ℕ, ◌≡◌, ◌≢◌, refl, ap, ◌∙◌, ◌⊎◌, inl, inr, Option, none, some, List, [],
  ◌∷◌, ◌++◌, Text, strcmp0_eq, append-nil, strsplit, strsplit-eq, list_of, pieces,
  pieces-append_delim, pieces-Free, Free, IsGraphic, All, if◌then◌else◌, arith,
}
use rauc.Slot.{Slot, Slots}

pub graphic-Free : (b : Text) → All IsGraphic b → Free 32 b
graphic-Free [] h = tt
graphic-Free (c ∷ b) h = (ground arith, graphic-Free b h.1)

-- The first name of a text that begins with `b` and then ends or has a space.
pub first_name :
    (b r : Text)
    → b ≢ []
    → All IsGraphic b
    → (r ≡ []) ⊎ ((q : Text) × (r ≡ 32 ∷ q))
    → (ns : List Text) × (strsplit 32 (b ++ r) ≡ b ∷ ns)
first_name [] r n h e = absurd (n refl)
first_name (c ∷ b) r n h (inl e) = (
  [],
  rw (e, append-nil)
      (strsplit-eq 32 (c ∷ b) (λ z. cc)
        ∙ ap list_of (pieces-Free 32 (c ∷ b) (graphic-Free (c ∷ b) h))),
)
first_name (c ∷ b) r n h (inr (q, e)) = (
  list_of (pieces 32 q),
  rw e (
      strsplit-eq 32 (c ∷ (b ++ 32 ∷ q)) (λ z. cc)
      ∙ ap list_of (pieces-append_delim 32 (c ∷ b) q (graphic-Free (c ∷ b) h))),
)

pub append-nil_left : (b r : Text) → b ++ r ≡ [] → b ≡ []
append-nil_left [] r e = refl
append-nil_left (c ∷ b) r e = cc

-- The first slot that has this bootname, which the loops over the table meet first.
unfoldable pub find_by_bootname : Slots → Text → Option Slot
find_by_bootname [] b = none
find_by_bootname (s ∷ ss) b =
    if strcmp0_eq (some b) s.bootname then some s else find_by_bootname ss b

-- The last byte of a text tells two texts apart.
unfoldable pub last_or : ℕ → Text → ℕ
last_or d [] = d
last_or d (c ∷ s) = last_or c s

pub last_or-append : (d : ℕ) (b : Text) (c : ℕ) (s : Text) → last_or d (b ++ c ∷ s) ≡ last_or c s
unfolding last_or
last_or-append d [] c s = refl
last_or-append d (x ∷ b) c s = last_or-append x b c s

pub keys-differ : (x y : Text) → last_or 0 x ≢ last_or 0 y → text_eq x y ≡ false
keys-differ x y n = text_ne x y (λ e. n (ap (last_or 0) e))

pub graphic_line : (b : Text) → All IsGraphic b → Free 10 b
graphic_line [] h = tt
graphic_line (c ∷ b) h = (ground arith, graphic_line b h.1)
