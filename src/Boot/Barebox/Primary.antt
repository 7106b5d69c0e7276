-- ===== src/Boot/Barebox/Primary.antt =====
-- The priorities that `r_barebox_set_primary` writes, and what they leave in the state.
use rauc.Prelude.{
  ◌<◌, ◌^◌, ℕ, ◌≡◌, ◌≤◌, refl, sym, ap, ◌∙◌, ◌⊎◌, inl, inr, true, false, Bool-cases, Option,
  Option-cases, none, some, List, [], ◌∷◌, ◌++◌, Text, All, All-mono, text_eq, text_eq_refl,
  text_eq_iff, ◌==◌, if◌then◌else◌, ok, >>=-eq-ok, ok_injective, arith,
}
use mathlib.Core.Path.{subst}
use mathlib.Core.Option.{some-injective}
use rauc.Slot.{Slot, Slots, same_slot}
use rauc.Boot.Tools.{Tools, BootConfig}
use rauc.Boot.Barebox.{BareboxSlotState, prio_key, attempts_key, barebox_state_get, new_priorities}
use rauc.Boot.Barebox.Laws.{assigned}
use rauc.Boot.Barebox.Keys.{prio_key_eq, prio-ne-attempts}

-- The bootname of a slot is the one of the target exactly where the slot is the target.
abbrev pub Agrees : Slot → Text → Slot → Type 0
Agrees s name x =
    (same_slot x s ≡ true → x.bootname ≡ some name)
    × (x.bootname ≡ some name → same_slot x s ≡ true)

-- 20 for the bootname `name`, and at most 10 for another.
abbrev pub Level : Text → Text → ℕ → Type 0
Level name b v = ((text_eq b name ≡ true) × (v ≡ 20)) ⊎ ((text_eq b name ≡ false) × (v ≤ 10))

abbrev pub Written : Text → Text × ℕ → Type 0
Written name (k, v) = (b : Text) × (k ≡ prio_key (some b)) × Level name b v

pub assigned-append :
    (ps qs : List (Text × ℕ)) (j : Text) (old : Option ℕ)
    → assigned (ps ++ qs) j old ≡ assigned qs j (assigned ps j old)
unfolding assigned
assigned-append [] qs j old = refl
assigned-append ((k, v) ∷ ps) qs j old =
    assigned-append ps qs j (if text_eq k j then some v else old)

module _ (name : Text) where
  assigned-Level :
      (ps : List (Text × ℕ)) (b : Text) (v : ℕ)
      → All (Written name) ps
      → Level name b v
      → (u : ℕ) × (assigned ps (prio_key (some b)) (some v) ≡ some u) × Level name b u
  unfolding assigned
  assigned-Level [] b v h l = (v, refl, l)
  assigned-Level ((k, u) ∷ ps) b v ((c, key, level), rest) l =
      elim (Bool-cases (text_eq k (prio_key (some b)))) [
        | inl e ↦
            let same : c ≡ b =
              (text_eq_iff c b).0
                (sym (prio_key_eq c b) ∙ subst (λ x. text_eq x (prio_key (some b)) ≡ true) key e) in
            rw e (assigned-Level ps b u rest (subst (λ x. Level name x u) same level))
        | inr e ↦ rw e (assigned-Level ps b v rest l)
      ]

  -- The priorities fit 32 bits.
  pub Written-small :
      (ps : List (Text × ℕ)) → All (Written name) ps → All (λ (p : Text × ℕ). p.1 < 2 ^ 32) ps
  Written-small [] h = tt
  Written-small ((k, v) ∷ ps) ((c, key, inl level), rest) = (omega arith, Written-small ps rest)
  Written-small ((k, v) ∷ ps) ((c, key, inr level), rest) = (omega arith, Written-small ps rest)

  pub assigned-attempts :
      (ps : List (Text × ℕ)) (b : Text) (old : Option ℕ)
      → All (Written name) ps
      → assigned ps (attempts_key (some b)) old ≡ old
  unfolding assigned
  assigned-attempts [] b old h = refl
  assigned-attempts ((k, v) ∷ ps) b old ((c, key, level), rest) =
      rw (key, prio-ne-attempts c b) (assigned-attempts ps b old rest)

module _ (t : Tools) (config : BootConfig) (s : Slot) (name : Text) where
  open t use {World}

  -- The value that is written for one slot.
  abbrev value : Slot → ℕ → ℕ
  value x prio = if same_slot x s then 20 else if prio == 0 then 0 else 10

  value-Level :
      (x : Slot) (b : Text) (prio : ℕ)
      → Agrees s name x
      → x.bootname ≡ some b
      → Level name b (value x prio)
  value-Level x b prio (to, from) e = elim (Bool-cases (same_slot x s)) [
    | inl y ↦ inl (rw (some-injective b name (sym e ∙ to y)) (text_eq_refl name), rw y refl)
    | inr n ↦ elim (Bool-cases (text_eq b name)) [
      | inl z ↦ absurd (cc (n, from (e ∙ ap some ((text_eq_iff b name).0 z))))
      | inr z ↦ inr (z, rw n (ground arith))
    ]
  ]

  -- One slot of the loop.
  new_priorities_step :
      (x : Slot) (xs : Slots) (w : World) (b : Text) (ps : List (Text × ℕ))
      → x.bootname ≡ some b
      → new_priorities t config s (x ∷ xs) w ≡ ok ps
      → (state : BareboxSlotState) × (rest : List (Text × ℕ)) × (barebox_state_get t config
            (some b)
            w
          ≡ ok state)
        × (new_priorities t config s xs w ≡ ok rest)
        × (ps ≡ (prio_key (some b), value x state.prio) ∷ rest)
  unfolding new_priorities
  new_priorities_step x xs w b ps named h =
      let (state, read, more) =
        >>=-eq-ok (barebox_state_get t config (some b) w) _ (rw named at h) in
      let (rest, tail, done) = >>=-eq-ok (new_priorities t config s xs w) _ more in
      (state, rest, read, tail, sym (ok_injective done))

  new_priorities_skip :
      (x : Slot) (xs : Slots) (w : World)
      → x.bootname ≡ none
      → new_priorities t config s (x ∷ xs) w ≡ new_priorities t config s xs w
  unfolding new_priorities
  new_priorities_skip x xs w e = rw e refl

  pub new_priorities-Written :
      (xs : Slots) (w : World) (ps : List (Text × ℕ))
      → All (Agrees s name) xs
      → new_priorities t config s xs w ≡ ok ps
      → All (Written name) ps
  unfolding new_priorities
  new_priorities-Written [] w ps a h = subst (All (Written name)) (ok_injective h) tt
  new_priorities-Written (x ∷ xs) w ps (agrees, a) h = elim (Option-cases x.bootname) [
    | inl e ↦ new_priorities-Written xs w ps a (sym (new_priorities_skip x xs w e) ∙ h)
    | inr (b, e) ↦
        let (state, rest, read, tail, same) = new_priorities_step x xs w b ps e h in
        subst (All (Written name)) (sym same)
          ((b, refl, value-Level x b state.prio agrees e), new_priorities-Written xs w rest a tail)
  ]

  -- What one slot of the table finds after the assignments.
  abbrev pub FoundAt : World → List (Text × ℕ) → Text → Type 0
  FoundAt w ps b =
      (old : Option ℕ)
      → (u : ℕ) × (state : BareboxSlotState) × (assigned ps (prio_key (some b)) old ≡ some u)
        × Level name b u
        × (barebox_state_get t config (some b) w ≡ ok state)

  abbrev pub Found : World → List (Text × ℕ) → Slot → Type 0
  Found w ps x = (b : Text) → x.bootname ≡ some b → FoundAt w ps b

  Found-cons :
      (w : World) (p : Text × ℕ) (ps : List (Text × ℕ)) (x : Slot)
      → Found w ps x
      → Found w (p ∷ ps) x
  unfolding assigned
  Found-cons w p ps x found b e old =
      found b e (if text_eq p.0 (prio_key (some b)) then some p.1 else old)

  Found-head :
      (x : Slot) (w : World) (rest : List (Text × ℕ)) (b : Text) (state : BareboxSlotState)
      → All (Written name) rest
      → Level name b (value x state.prio)
      → barebox_state_get t config (some b) w ≡ ok state
      → FoundAt w ((prio_key (some b), value x state.prio) ∷ rest) b
  unfolding assigned
  Found-head x w rest b state written level read old =
      let (u, at, l) = assigned-Level name rest b (value x state.prio) written level in
      (u, state, rw (text_eq_refl (prio_key (some b))) at, l, read)

  pub new_priorities-Found :
      (xs : Slots) (w : World) (ps : List (Text × ℕ))
      → All (Agrees s name) xs
      → new_priorities t config s xs w ≡ ok ps
      → All (Found w ps) xs
  new_priorities-Found [] w ps a h = tt
  new_priorities-Found (x ∷ xs) w ps (agrees, a) h = elim (Option-cases x.bootname) [
    | inl e ↦ (
      (λ b z old. absurd (cc (e, z))),
      new_priorities-Found xs w ps a (sym (new_priorities_skip x xs w e) ∙ h),
    )
    | inr (b, e) ↦
        let (state, rest, read, tail, same) = new_priorities_step x xs w b ps e h in
        subst (λ q. All (Found w q) (x ∷ xs)) (sym same)
          (
            (λ b' z.
                subst (FoundAt w ((prio_key (some b), value x state.prio) ∷ rest))
                  (some-injective b b' (sym e ∙ z))
                  (Found-head x w rest b state (new_priorities-Written xs w rest a tail)
                    (value-Level x b state.prio agrees e) read)),
            All-mono (Found w rest) (Found w ((prio_key (some b), value x state.prio) ∷ rest)) xs
                (Found-cons w (prio_key (some b), value x state.prio) rest)
                (new_priorities-Found xs w rest a tail),
          )
  ]
