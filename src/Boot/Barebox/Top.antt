-- ===== src/Boot/Barebox/Top.antt =====
-- Which slot the loop of `r_barebox_get_primary` finds.
use rauc.Prelude.{
  ℕ, ◌≡◌, ◌≢◌, ◌≤◌, refl, sym, ap, ◌∙◌, ◌⊎◌, inl, inr, true, false, Bool-cases, Option,
  Option-cases, none, some, [], ◌∷◌, Text, All, text_eq, text_eq_iff, text_ne, ◌==◌, ltb, lt→ltb,
  strcmp0_eq, if◌then◌else◌, Result, ok, err, ok_injective, Result-cases, arith,
}
use mathlib.Core.Option.{some-injective}
use rauc.Slot.{Slot, Slots}
use rauc.Boot.Tools.{Tools, BootConfig}
use rauc.Boot.Names.{find_by_bootname}
use rauc.Boot.Barebox.{BareboxSlotState, barebox_state_get, top_slot}
use rauc.Boot.Barebox.Primary.{Level}

module _ (t : Tools) (config : BootConfig) (s : Slot) (name : Text) where
  open t use {World}

  -- What a slot of the table reads after the update.
  abbrev pub Readable : World → Slot → Type 0
  Readable w x =
      (b : Text)
      → x.bootname ≡ some b
      → (state : BareboxSlotState) × (barebox_state_get t config (some b) w ≡ ok state)
        × Level name b state.prio
        × (text_eq b name ≡ true → (state.attempts == 0) ≡ false)

  top_slot_keeps :
      (w : World) (xs : Slots)
      → All (Readable w) xs
      → top_slot t config xs (some s) 20 w ≡ ok (some s)
  unfolding top_slot
  top_slot_keeps w [] r = refl
  top_slot_keeps w (x ∷ xs) (r, rs) = elim (Option-cases x.bootname) [
    | inl e ↦ rw e (top_slot_keeps w xs rs)
    | inr (b, e) ↦
        let (state, read, level, attempts) = r b e in
        rw (e, read) (ground (arith, top_slot_keeps w xs rs))
  ]

  find_hit :
      (x : Slot) (xs : Slots)
      → strcmp0_eq (some name) x.bootname ≡ true
      → find_by_bootname (x ∷ xs) name ≡ some x
  unfolding find_by_bootname
  find_hit x xs h = rw h refl

  find_miss :
      (x : Slot) (xs : Slots)
      → strcmp0_eq (some name) x.bootname ≡ false
      → find_by_bootname (x ∷ xs) name ≡ find_by_bootname xs name
  unfolding find_by_bootname
  find_miss x xs h = rw h refl

  -- A slot of the table with the highest priority is found.
  pub top_slot_finds :
      (w : World) (xs : Slots) (primary : Option Slot) (top : ℕ)
      → top ≤ 10
      → All (Readable w) xs
      → find_by_bootname xs name ≡ some s
      → top_slot t config xs primary top w ≡ ok (some s)
  unfolding top_slot find_by_bootname strcmp0_eq
  top_slot_finds w [] primary top l r f = cc
  top_slot_finds w (x ∷ xs) primary top l (r, rs) f = elim (Option-cases x.bootname) [
    | inl e ↦ rw e (top_slot_finds w xs primary top l rs (rw e at f))
    | inr (b, e) ↦
        let (state, read, level, attempts) = r b e in
        elim level [
          | inl (is, top_prio) ↦
              let hit : text_eq name b ≡ true =
                (text_eq_iff name b).1 (sym ((text_eq_iff b name).0 is)) in
              let same : x ≡ s =
                some-injective x s
                  (sym (find_hit x xs (ap (strcmp0_eq (some name)) e ∙ hit)) ∙ f) in
              let wins : ltb top 20 ≡ true = lt→ltb top 20 (omega arith) in
              rw (e, read, attempts is, top_prio, wins, same) (top_slot_keeps w xs rs)
          | inr (other, low) ↦
              let miss : text_eq name b ≡ false =
                text_ne name b (λ z. cc (other, (text_eq_iff b name).1 (sym z))) in
              let rest = sym (find_miss x xs (ap (strcmp0_eq (some name)) e ∙ miss)) ∙ f in
              rw (e, read)
                (ground (
                  arith,
                  top_slot_finds w xs primary top l rs rest,
                  top_slot_finds w xs (some x) state.prio low rs rest,
                ))
        ]
  ]

  top_slot_step :
      (w : World) (x : Slot) (xs : Slots) (primary : Option Slot) (top : ℕ) (b : Text)
      (found : BareboxSlotState)
      → x.bootname ≡ some b
      → barebox_state_get t config (some b) w ≡ ok found
      → (top_slot t config (x ∷ xs) primary top w ≡ top_slot t config xs primary top w)
        ⊎ (((found.attempts == 0) ≡ false)
            × (top_slot t config (x ∷ xs) primary top w
                ≡ top_slot t config xs (some x) found.prio w))
  unfolding top_slot
  top_slot_step w x xs primary top b found e good = elim (Bool-cases (found.attempts == 0)) [
    | inl z ↦ inl (at x.bootname e ∙ rw z refl)
    | inr z ↦ elim (Bool-cases (ltb top found.prio)) [
      | inl y ↦ inr (z, at x.bootname e ∙ rw (z, y) refl)
      | inr y ↦ inl (at x.bootname e ∙ rw (z, y) refl)
    ]
  ]
    where
      skip : Result (Option Slot)
      skip = top_slot t config xs primary top w

      chosen : BareboxSlotState → Result (Option Slot)
      chosen state =
          if state.attempts == 0
          then skip
          else if ltb top state.prio
          then top_slot t config xs (some x) state.prio w
          else skip

      at :
          (o : Option Text)
          → o ≡ some b
          → (elim o [
            | none ↦ skip
            | some c ↦ elim (barebox_state_get t config (some c) w) [
              | err z ↦ err z
              | ok state ↦ chosen state
            ]
          ])
            ≡ chosen found
      at o h = rw (h, good) refl

  -- A slot without attempts is not found.
  pub top_slot_passes :
      (w : World) (state : BareboxSlotState)
      → s.bootname ≡ some name
      → barebox_state_get t config (some name) w ≡ ok state
      → state.attempts ≡ 0
      → (xs : Slots) (primary : Option Slot) (top : ℕ) → primary ≢ some s
      → top_slot t config xs primary top w ≢ ok (some s)
  unfolding top_slot
  top_slot_passes w state named read none_left [] primary top n h = n (ok_injective h)
  top_slot_passes w state named read none_left (x ∷ xs) primary top n h =
      elim (Option-cases x.bootname) [
        | inl e ↦ top_slot_passes w state named read none_left xs primary top n (rw e at h)
        | inr (b, e) ↦ elim (Result-cases (barebox_state_get t config (some b) w)) [
          | inr (z, bad) ↦
              let failed : top_slot t config (x ∷ xs) primary top w ≡ err z = rw (e, bad) refl in cc
          | inl (found, good) ↦ elim (top_slot_step w x xs primary top b found e good) [
            | inl skip ↦
                top_slot_passes w state named read none_left xs primary top n (sym skip ∙ h)
            | inr (left, take) ↦
                top_slot_passes w state named read none_left xs (some x) found.prio
                  (λ z. attempts_left b found e good left (some-injective x s z)) (sym take ∙ h)
          ]
        ]
      ]
    where
      attempts_left :
          (b : Text) (found : BareboxSlotState)
          → x.bootname ≡ some b
          → barebox_state_get t config (some b) w ≡ ok found
          → (found.attempts == 0) ≡ false
          → x ≢ s
      attempts_left b found e good left z =
          let same : b ≡ name = some-injective b name (sym e ∙ ap (λ y. y.bootname) z ∙ named) in
          let equal : found ≡ state =
            ok_injective (sym good ∙ ap (λ y. barebox_state_get t config (some y) w) same ∙ read) in
          cc (left, ap (λ y. y.attempts == 0) equal ∙ ap (λ k. k == 0) none_left)
