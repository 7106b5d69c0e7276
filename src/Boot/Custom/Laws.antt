-- ===== src/Boot/Custom/Laws.antt =====
-- What docs/integration.rst asks of the program, and what custom.c reads of it.
use rauc.Prelude.{
  ◌≡◌, refl, sym, ap, ◌∙◌, Bool, true, false, Option, none, some, [], ◌∷◌, ◌++◌, Text, codes,
  text_eq, strcmp0_eq, chomp, chomp-append, skip_space, append-nil, All, IsGraphic, if◌then◌else◌,
  Result, ok, err, bootchooser_failed, bootchooser_parse_failed, Output, Check,
}
use mathlib.Core.Path.{subst}
use rauc.Slot.{Slot, Slots}
use rauc.Boot.Tools.{Tools, BootConfig, stdout_of, checked, checked-ok}
use rauc.Boot.Names.{find_by_bootname}
use rauc.Boot.Custom.{
  find_slot_by_text, custom_backend_get, custom_backend_set, custom_set_state, custom_get_primary,
  custom_get_state, custom_set_primary,
}

-- The word for a state.
abbrev pub word : Bool → Text
word b = if b then codes "good" else codes "bad"

-- The program keeps the primary bootname and the states of the bootnames, prints what it keeps on
-- a line, and keeps what a call that succeeds has set.
pub record CustomLaws (t : Tools) (backend : Text) : Type 0 where
  pub primary : t.World → Text
  pub states : t.World → Text → Bool
  pub get_primary :
      (w : t.World)
      → t.query (backend ∷ codes "get-primary" ∷ []) w ≡ Output.exited 0 (primary w ++ 10 ∷ [])
  pub get_state :
      (w : t.World) (b : Text)
      → t.query (backend ∷ codes "get-state" ∷ b ∷ []) w
        ≡ Output.exited 0 (word (states w b) ++ 10 ∷ [])
  pub set_primary :
      (w : t.World) (b : Text)
      → (t.update (backend ∷ codes "set-primary" ∷ b ∷ []) w).0 ≡ Check.success
      → primary (t.update (backend ∷ codes "set-primary" ∷ b ∷ []) w).1 ≡ b
  pub set_state :
      (w : t.World) (b : Text) (good : Bool)
      → (t.update (backend ∷ codes "set-state" ∷ b ∷ word good ∷ []) w).0 ≡ Check.success
      → states (t.update (backend ∷ codes "set-state" ∷ b ∷ word good ∷ []) w).1 b ≡ good

find_slot-first : (b : Text) (ss : Slots) → find_slot_by_text b ss ≡ find_by_bootname ss b
unfolding find_slot_by_text find_by_bootname strcmp0_eq
find_slot-first b [] = refl
find_slot-first b (s ∷ ss) = at s.bootname (find_slot-first b ss)
  where
    at :
        {rest other : Option Slot}
        → (o : Option Text) → rest ≡ other
        → (elim o [ none ↦ rest | some c ↦ if strcmp0_eq (some b) (some c) then some s else rest ])
          ≡ (if strcmp0_eq (some b) o then some s else other)
    at none e = e
    at (some c) e = ap (λ x. if strcmp0_eq (some b) (some c) then some s else x) e

skip_space-graphic : (b : Text) → All IsGraphic b → skip_space b ≡ b
unfolding skip_space
skip_space-graphic [] g = refl
skip_space-graphic (c ∷ b) g = rw g.0 refl

newline_read : (b : Text) → All IsGraphic b → skip_space (chomp (b ++ 10 ∷ [])) ≡ b
unfolding chomp
newline_read b g =
    ap skip_space (chomp-append b (10 ∷ []) g ∙ append-nil b) ∙ skip_space-graphic b g

module _ (t : Tools) (config : BootConfig) (backend : Text) (laws : CustomLaws t backend)
    (configured : config.custom_bootloader_backend ≡ some backend) where
  open t use {World}

  read_primary :
      (w : World)
      → All IsGraphic (laws.primary w)
      → custom_backend_get t config (codes "get-primary") none w ≡ ok (laws.primary w)
  unfolding custom_backend_get stdout_of
  read_primary w g = rw (configured, laws.get_primary w, newline_read (laws.primary w) g) refl

  word-IsGraphic : (good : Bool) → All IsGraphic (word good)
  word-IsGraphic true = (refl, (refl, (refl, (refl, tt))))
  word-IsGraphic false = (refl, (refl, (refl, tt)))

  read_state :
      (w : World) (b : Text)
      → custom_backend_get t config (codes "get-state") (some b) w ≡ ok (word (laws.states w b))
  unfolding custom_backend_get stdout_of
  read_state w b =
      rw
        (
          configured,
          laws.get_state w b,
          newline_read (word (laws.states w b)) (word-IsGraphic (laws.states w b)),
        )
        refl

  set_named :
      (cmd b : Text) (arg : Option Text) (w : World)
      → custom_backend_set t config cmd (some b) arg w ≡ (
          let (c, w') = t.update (backend ∷ cmd ∷ b ∷ elim arg [ none ↦ [] | some a ↦ a ∷ [] ]) w in
          (checked c, w'))
  unfolding custom_backend_set
  set_named cmd b arg w = rw configured refl

  module _ (s : Slot) (b : Text) (w : World) (named : s.bootname ≡ some b) where
    set_primary-named :
        custom_set_primary t config s w
        ≡ (let (c, w') = t.update (backend ∷ codes "set-primary" ∷ b ∷ []) w in (checked c, w'))
    unfolding custom_set_primary
    set_primary-named =
        ap (λ n. custom_backend_set t config (codes "set-primary") n none w) named
        ∙ set_named (codes "set-primary") b none w

    set_state-named :
        (good : Bool)
        → custom_set_state t config s good w ≡ (
            let (c, w') = t.update (backend ∷ codes "set-state" ∷ b ∷ word good ∷ []) w in
            (checked c, w'))
    unfolding custom_set_state
    set_state-named good =
        ap (λ n. custom_backend_set t config (codes "set-state") n (some (word good)) w) named
        ∙ set_named (codes "set-state") b (some (word good)) w

    primary_back :
        All IsGraphic b
        → find_by_bootname config.slots b ≡ some s
        → (custom_set_primary t config s w).0 ≡ ok tt
        → custom_get_primary t config (custom_set_primary t config s w).1 ≡ ok s
    unfolding custom_get_primary
    primary_back g first h =
        let w' = (t.update (backend ∷ codes "set-primary" ∷ b ∷ []) w).1 in
        let done = checked-ok _ (sym (ap (λ x. x.0) set_primary-named) ∙ h) in
        let found : find_slot_by_text b config.slots ≡ some s =
          find_slot-first b config.slots ∙ first in
        let kept : laws.primary w' ≡ b = laws.set_primary w b done in
        ap (λ x. custom_get_primary t config x.1) set_primary-named
        ∙ rw (read_primary w' (subst (All IsGraphic) (sym kept) g), kept)
            (ap
              (λ x. elim x as (λ y. Result Slot) [
                | none ↦ err bootchooser_parse_failed
                | some y ↦ ok y
              ])
              found)

    word_read :
        (good : Bool)
        → (if text_eq (word good) (codes "good")
            then ok true
            else if text_eq (word good) (codes "bad")
            then ok false
            else err bootchooser_failed)
          ≡ ok good
    unfolding text_eq
    word_read true = refl
    word_read false = refl

    state_back :
        (good : Bool)
        → (custom_set_state t config s good w).0 ≡ ok tt
        → custom_get_state t config s (custom_set_state t config s good w).1 ≡ ok good
    unfolding custom_get_state strcmp0_eq
    state_back good h =
        let w' = (t.update (backend ∷ codes "set-state" ∷ b ∷ word good ∷ []) w).1 in
        let done = checked-ok _ (sym (ap (λ x. x.0) (set_state-named good)) ∙ h) in
        let kept : laws.states w' b ≡ good = laws.set_state w b good done in
        let read : custom_backend_get t config (codes "get-state") s.bootname w' ≡ ok (word good) =
          ap (λ n. custom_backend_get t config (codes "get-state") n w') named
          ∙ read_state w' b
          ∙ ap (λ x. ok (word x)) kept in
        ap (λ x. custom_get_state t config s x.1) (set_state-named good) ∙ rw read (word_read good)

  -- `r_custom_get_primary` reads the slot that `r_custom_set_primary` has made primary, and
  -- `r_custom_get_state` the state that `r_custom_set_state` has given, where the calls succeed, for a
  -- slot whose bootname has no white space and is carried by no slot before it in the table.
  pub custom_get-set :
      (s : Slot) (b : Text) (good : Bool) (w : World)
      → s.bootname ≡ some b
      → All IsGraphic b
      → find_by_bootname config.slots b ≡ some s
      → (custom_set_primary t config s w).0 ≡ ok tt
      → (custom_set_state t config s good w).0 ≡ ok tt
      → (custom_get_primary t config (custom_set_primary t config s w).1 ≡ ok s)
        × (custom_get_state t config s (custom_set_state t config s good w).1 ≡ ok good)
  custom_get-set s b good w named g first hp hs =
      (primary_back s b w named g first hp, state_back s b w named good hs)
