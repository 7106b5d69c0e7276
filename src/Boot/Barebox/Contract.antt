-- ===== src/Boot/Barebox/Contract.antt =====
-- The barebox backend keeps the contract of a backend.
use rauc.Prelude.{
  ◌<◌, ◌^◌, All-append, ℕ, ◌≡◌, ◌≢◌, refl, sym, ap, ◌∙◌, inl, inr, true, false, Bool-cases, Option,
  none, some, List, [], ◌∷◌, ◌++◌, Text, All, All-mono, text_eq, text_eq_refl, text_eq_iff, ◌==◌,
  ltb, strcmp0_eq, ◌&&◌, ok, err, ◌>>=◌, >>=-eq-ok, ok_injective, Result-cases,
  bootchooser_parse_failed, arith,
}
use mathlib.Core.Path.{subst}
use mathlib.Core.Option.{some-injective}
use rauc.Slot.{Slot, Slots}
use rauc.Boot.Tools.{Tools, BootConfig, attempts_or}
use rauc.Boot.Names.{find_by_bootname}
use rauc.Boot.Backend.{IsBackend}
use rauc.Boot.Barebox.{
  BareboxSlotState, prio_key, attempts_key, barebox_state_get, barebox_state_set, barebox_set_state,
  top_slot, barebox_get_primary, barebox_get_state, new_priorities, barebox_set_primary,
  barebox_backend,
}
use rauc.Boot.Barebox.Laws.{
  BareboxLaws, assigned, barebox_state_get-ok, barebox_state_get-view, barebox_state_set-view,
}
use rauc.Boot.Barebox.Keys.{attempts-ne-prio, attempts_key_eq}
use rauc.Boot.Barebox.Top.{Readable, top_slot_finds, top_slot_passes}
use rauc.Boot.Barebox.Primary.{
  Written-small, Agrees, assigned-append, assigned-attempts, Found, new_priorities-Found,
  new_priorities-Written,
}

-- A slot that is the first of its bootname, where a slot has its bootname exactly where it is the
-- slot.
pub record IsOwner (slots : Slots) (s : Slot) : Type 0 where
  pub name : Text
  pub named : s.bootname ≡ some name
  pub first : find_by_bootname slots name ≡ some s
  pub agrees : All (Agrees s name) slots

attempts_small : (n : ℕ) → n < 2 ^ 32 → attempts_or 3 n < 2 ^ 32
unfolding attempts_or
attempts_small n h = ground arith

attempts_left : (n : ℕ) → (attempts_or 3 n == 0) ≡ false
unfolding attempts_or
attempts_left n = ground arith

All-first :
    (P : Slot → Type 0) (xs : Slots) (s : Slot) (name : Text)
    → All P xs
    → find_by_bootname xs name ≡ some s
    → P s
unfolding find_by_bootname
All-first P [] s name h f = cc
All-first P (x ∷ xs) s name (h, hs) f = elim (Bool-cases (strcmp0_eq (some name) x.bootname)) [
  | inl e ↦ subst P (some-injective x s (rw e at f)) h
  | inr e ↦ All-first P xs s name hs (rw e at f)
]

module _ (t : Tools) (config : BootConfig) (barebox : BareboxLaws t config) (s : Slot)
    (o : IsOwner config.slots s) (w : t.World)
    (attempts : config.boot_attempts_primary < 2 ^ 32) where
  open t use {World}

  get_state-named :
      (w' : t.World) (state : BareboxSlotState)
      → barebox_state_get t config (some o.name) w' ≡ ok state
      → barebox_get_state t config s w' ≡ ok (ltb 0 state.prio && ltb 0 state.attempts)
  unfolding barebox_get_state
  get_state-named w' state read =
      ap
        (λ b. barebox_state_get t config b w' >>= λ state'.
          ok (ltb 0 state'.prio && ltb 0 state'.attempts))
        o.named
      ∙ rw read refl

  bad_state :
      (barebox_set_state t config s false w).0 ≡ ok tt
      → barebox_state_get t config (some o.name) (barebox_set_state t config s false w).1
        ≡ ok (record { prio = 0; attempts = 0 })
  unfolding barebox_set_state assigned
  bad_state h =
      let ps = (prio_key s.bootname, 0) ∷ (attempts_key s.bootname, 0) ∷ [] in
      let w' = (barebox_state_set t config ps w).1 in
      let prio : text_eq (prio_key s.bootname) (prio_key (some o.name)) ≡ true =
        ap (λ b. text_eq (prio_key b) (prio_key (some o.name))) o.named
        ∙ text_eq_refl (prio_key (some o.name)) in
      let attempts : text_eq (attempts_key s.bootname) (attempts_key (some o.name)) ≡ true =
        ap (λ b. text_eq (attempts_key b) (attempts_key (some o.name))) o.named
        ∙ text_eq_refl (attempts_key (some o.name)) in
      let apart : text_eq (attempts_key s.bootname) (prio_key (some o.name)) ≡ false =
        ap (λ b. text_eq (attempts_key b) (prio_key (some o.name))) o.named
        ∙ attempts-ne-prio o.name o.name in
      barebox_state_get-view t config barebox w' o.name 0 0
        (barebox_state_set-view t config barebox w ps (prio_key (some o.name))
            (omega arith, (omega arith, tt)) h
          ∙ rw (prio, apart) refl)
        (barebox_state_set-view t config barebox w ps (attempts_key (some o.name))
            (omega arith, (omega arith, tt)) h
          ∙ rw attempts refl)

  bad_unread :
      (barebox_set_state t config s false w).0 ≡ ok tt
      → (barebox_get_state t config s (barebox_set_state t config s false w).1 ≢ ok true)
        × (barebox_get_primary t config (barebox_set_state t config s false w).1 ≢ ok s)
  unfolding barebox_get_primary
  bad_unread h =
      let w' = (barebox_set_state t config s false w).1 in
      let state : BareboxSlotState = record { prio = 0; attempts = 0 } in
      (
        λ z. cc (get_state-named w' state (bad_state h), z),
        λ z.
            let (found, read, primary) = >>=-eq-ok (top_slot t config config.slots none 0 w') _ z in
            top_slot_passes t config s o.name w' state o.named (bad_state h) refl config.slots none
              0 (λ y. cc) (read ∙ ap ok (chosen found primary)),
      )
    where
      chosen :
          (found : Option Slot)
          → (elim found [ none ↦ err bootchooser_parse_failed | some x ↦ ok x ]) ≡ ok s
          → found ≡ some s
      chosen none h = cc
      chosen (some x) h = ap some (ok_injective h)

  -- What the update of `r_barebox_set_primary` leaves.
  primary_set :
      (barebox_set_primary t config s w).0 ≡ ok tt
      → (ps : List (Text × ℕ)) × (new_priorities t config s config.slots w ≡ ok ps)
        × (barebox_set_primary t config s w
            ≡ barebox_state_set t config
                (ps ++ (attempts_key s.bootname, attempts_or 3 config.boot_attempts_primary) ∷ [])
                w)
  unfolding barebox_set_primary
  primary_set h = elim (Result-cases (new_priorities t config s config.slots w)) [
    | inl (ps, e) ↦ (ps, e, rw (barebox_set_primary, e) refl)
    | inr (z, e) ↦
        let failed : (barebox_set_primary t config s w).0 ≡ err z =
          rw (barebox_set_primary, e) refl in
        absurd cc
  ]

  table-Readable :
      (ps : List (Text × ℕ)) (done : (barebox_set_primary t config s w).0 ≡ ok tt)
      → new_priorities t config s config.slots w ≡ ok ps
      → barebox_set_primary t config s w
        ≡ barebox_state_set t config
            (ps ++ (attempts_key s.bootname, attempts_or 3 config.boot_attempts_primary) ∷ [])
            w
      → All (Readable t config s o.name (barebox_set_primary t config s w).1) config.slots
  unfolding assigned
  table-Readable ps done e same =
      All-mono (Found t config s o.name w ps) (Readable t config s o.name w') config.slots readable
        (new_priorities-Found t config s o.name config.slots w ps o.agrees e)
    where
      w' : t.World
      w' = (barebox_set_primary t config s w).1

      left : ℕ
      left = attempts_or 3 config.boot_attempts_primary

      last : List (Text × ℕ)
      last = (attempts_key s.bootname, left) ∷ []

      left_some : (left == 0) ≡ false
      left_some = attempts_left config.boot_attempts_primary

      apart : (b : Text) → text_eq (attempts_key s.bootname) (prio_key (some b)) ≡ false
      apart b =
          ap (λ n. text_eq (attempts_key n) (prio_key (some b))) o.named ∙ attempts-ne-prio o.name b

      own :
          (b : Text) → text_eq (attempts_key s.bootname) (attempts_key (some b)) ≡ text_eq o.name b
      own b =
          ap (λ n. text_eq (attempts_key n) (attempts_key (some b))) o.named
          ∙ attempts_key_eq o.name b

      small : All (λ (p : Text × ℕ). p.1 < 2 ^ 32) (ps ++ last)
      small =
          All-append (λ (p : Text × ℕ). p.1 < 2 ^ 32) ps last
            (Written-small o.name ps
              (new_priorities-Written t config s o.name config.slots w ps o.agrees e))
            (attempts_small config.boot_attempts_primary attempts, tt)

      after : (j : Text) → barebox.view w' j ≡ assigned last j (assigned ps j (barebox.view w j))
      after j =
          ap (λ x. barebox.view x.1 j) same
          ∙ barebox_state_set-view t config barebox w (ps ++ last) j small
              (sym (ap (λ x. x.0) same) ∙ done)
          ∙ assigned-append ps last j (barebox.view w j)

      readable : (x : Slot) → Found t config s o.name w ps x → Readable t config s o.name w' x
      readable x found b named =
          let (u, old, at, level, read) = found b named (barebox.view w (prio_key (some b))) in
          let prio : assigned last (prio_key (some b))
                (assigned ps (prio_key (some b)) (barebox.view w (prio_key (some b))))
              ≡ some u =
            ap (assigned last (prio_key (some b))) at ∙ rw (apart b) refl in
          let kept =
            assigned-attempts o.name ps b (barebox.view w (attempts_key (some b)))
              (new_priorities-Written t config s o.name config.slots w ps o.agrees e)
            ∙ (barebox_state_get-ok t config barebox w b old read).1 in
          elim (Bool-cases (text_eq o.name b)) [
            | inl y ↦ (
              record { prio = u; attempts = left },
              barebox_state_get-view t config barebox w' b u left (after (prio_key (some b)) ∙ prio)
                  (after (attempts_key (some b))
                    ∙ ap (assigned last (attempts_key (some b))) kept
                    ∙ rw (own b, y) refl),
              level,
              λ z. left_some,
            )
            | inr n ↦ (
              record { prio = u; attempts = old.attempts },
              barebox_state_get-view t config barebox w' b u old.attempts
                  (after (prio_key (some b)) ∙ prio)
                  (after (attempts_key (some b))
                    ∙ ap (assigned last (attempts_key (some b))) kept
                    ∙ rw (own b, n) refl),
              level,
              λ z. absurd (cc (n, (text_eq_iff o.name b).1 (sym ((text_eq_iff b o.name).0 z)))),
            )
          ]

  primary_back :
      (done : (barebox_set_primary t config s w).0 ≡ ok tt)
      → (barebox_get_primary t config (barebox_set_primary t config s w).1 ≡ ok s)
        × (barebox_get_state t config s (barebox_set_primary t config s w).1 ≡ ok true)
  unfolding barebox_get_primary
  primary_back done =
      let w' = (barebox_set_primary t config s w).1 in
      let (ps, e, same) = primary_set done in
      let table = table-Readable ps done e same in
      let (state, read, level, left) =
        All-first (Readable t config s o.name w') config.slots s o.name table o.first o.name
          o.named in
      (
        rw (top_slot_finds t config s o.name w' config.slots none 0 (omega arith) table o.first)
            refl,
        get_state-named w' state read
            ∙ ground (arith, left (text_eq_refl o.name), text_eq_refl o.name),
      )

-- The barebox backend keeps the contract of a backend, on every state of the tool, for a slot that is
-- the first of its bootname, where a slot of the table has its bootname exactly where it has its
-- name, where the configured attempts fit 32 bits.
pub barebox_backend-IsBackend :
    (t : Tools) (config : BootConfig) (barebox : BareboxLaws t config)
    → config.boot_attempts_primary < 2 ^ 32
    → IsBackend (barebox_backend t config) (λ w s. IsOwner config.slots s)
barebox_backend-IsBackend t config barebox attempts = record {
  primary_read = λ s w o h. (primary_back t config barebox s o w attempts h).0;
  primary_good = λ s w o h. (primary_back t config barebox s o w attempts h).1;
  bad_read = λ s w o h. bad_unread t config barebox s o w attempts h;
}
