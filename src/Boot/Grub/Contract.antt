-- ===== src/Boot/Grub/Contract.antt =====
-- The GRUB backend keeps the contract of a backend.
use rauc.Prelude.{
  ◌≡◌, ◌≢◌, refl, sym, ap, ◌∙◌, ◌⊎◌, inl, inr, true, false, Bool-cases, Option, none, some, [], ◌∷◌,
  ◌++◌, Text, codes, text_eq, text_eq_refl, chomp, chomp-append, chomp_space, strsplit, strtoull,
  Free, All, IsGraphic, strcmp0_eq, Option-cases, no_error, if◌then◌else◌, ok, err, ◌>>=◌, arith,
}
use mathlib.Core.Option.{some-injective}
use mathlib.Core.Path.{subst}
use rauc.Slot.{Slot, Slots}
use rauc.Boot.Tools.{Tools, BootConfig, string_new}
use rauc.Boot.Names.{first_name, find_by_bootname}
use rauc.Boot.Backend.{IsBackend}
use rauc.Boot.Uboot.{lists_name, order_primary, order_rest}
use rauc.Boot.Grub.{
  order_key, ok_key, try_key, grub_env_get, grub_env_set, flags_good, grub_get_state,
  grub_set_state, grub_find_slot, grub_find_primary, grub_get_primary, grub_set_primary,
  grub_backend,
}
use rauc.Boot.Grub.Laws.{
  GrubLaws, IsVariable, value_of, assigned, pairs, read_value, grub_env_get-view, grub_env_set-view,
}
use rauc.Boot.Grub.Keys.{
  try-ne-ok, order-ne-ok, order-ne-try, ok_key-IsVariable, try_key-IsVariable, order_key-Free,
}
use rauc.Boot.Grub.Flags.{flags_good-view, get_state-flags, get_primary-flags}

-- A slot whose bootname can be kept in the environment, and which is the first of its bootname.
pub record IsNamed (slots : Slots) (s : Slot) : Type 0 where
  pub name : Text
  pub named : s.bootname ≡ some name
  pub nonempty : name ≢ []
  pub graphic : All IsGraphic name
  pub no_sign : Free 61 name
  pub first : find_by_bootname slots name ≡ some s
  pub order : Free 10 (order_primary slots s)

module _ (t : Tools) (config : BootConfig) (grub : GrubLaws t config) where
  open t use {World}

  set_state-named :
      (s : Slot) (b : Text) (w : World)
      → s.bootname ≡ some b
      → grub_set_state t config s false w
        ≡ grub_env_set t config
            (pairs ((ok_key (some b), codes "0") ∷ (try_key (some b), codes "0") ∷ []))
            w
  unfolding grub_set_state
  set_state-named s b w named = rw named refl

  set_primary-named :
      (s : Slot) (b : Text) (w : World)
      → s.bootname ≡ some b
      → grub_set_primary t config s w
        ≡ grub_env_set t config
            (pairs (
              (ok_key (some b), codes "1")
              ∷ (try_key (some b), codes "0")
              ∷ (order_key, order_primary config.slots s)
              ∷ []))
            w
  unfolding grub_set_primary
  set_primary-named s b w named =
      ap
        (λ n.
          grub_env_set t config
            (pairs (
              (ok_key n, codes "1")
              ∷ (try_key n, codes "0")
              ∷ (order_key, order_primary config.slots s)
              ∷ []))
            w)
        named

  module _ (s : Slot) (n : IsNamed config.slots s) (w : World) where
    bad_flags :
        (grub_set_state t config s false w).0 ≡ ok tt
        → flags_good t config s (grub_set_state t config s false w).1 ≡ ok false
    unfolding assigned strtoull chomp
    bad_flags h =
        let ps = (ok_key (some n.name), codes "0") ∷ (try_key (some n.name), codes "0") ∷ [] in
        let same = set_state-named s n.name w n.named in
        let vs : All IsVariable ps = (
          ok_key-IsVariable n.name (codes "0") n.graphic n.no_sign (refl, tt),
          (try_key-IsVariable n.name (codes "0") n.graphic n.no_sign (refl, tt), tt),
        ) in
        let done = sym (ap (λ x. x.0) same) ∙ h in
        let w' = (grub_env_set t config (pairs ps) w).1 in
        ap (λ x. flags_good t config s x.1) same
        ∙ flags_good-view t config grub s n.name (codes "0") w' n.named n.graphic n.no_sign
            (grub_env_set-view t config grub w ps (ok_key (some n.name)) vs done
              ∙ rw (text_eq_refl (ok_key (some n.name)), try-ne-ok n.name) refl)
            (grub_env_set-view t config grub w ps (try_key (some n.name)) vs done
              ∙ rw (text_eq_refl (try_key (some n.name))) refl)

    find_slot_first :
        (ss : Slots) (w' : World)
        → find_by_bootname ss n.name ≡ some s
        → flags_good t config s w' ≡ ok true
        → grub_find_slot t config n.name ss w' ≡ ok (some s)
    unfolding find_by_bootname grub_find_slot
    find_slot_first [] w' h f = cc
    find_slot_first (x ∷ ss) w' h f = ground (arith, find_slot_first ss w')

    -- What is read where the flags are good and the slot is first on the order.
    read_back :
        (w' : World) (rest : Text)
        → (rest ≡ []) ⊎ ((q : Text) × (rest ≡ 32 ∷ q))
        → flags_good t config s w' ≡ ok true
        → grub_env_get t config order_key w' ≡ ok (n.name ++ rest)
        → (grub_get_primary t config w' ≡ ok s) × (grub_get_state t config s w' ≡ ok true)
    unfolding grub_get_primary grub_get_state grub_find_primary lists_name strcmp0_eq
    read_back w' rest c f order =
        let (others, split) = first_name n.name rest n.nonempty n.graphic c in
        (
          rw (order, split, find_slot_first config.slots w' n.first f) refl,
          at s.bootname n.named (rw (order, split, text_eq_refl n.name) f),
        )
      where
        at :
            (o : Option Text)
            → o ≡ some n.name
            → (grub_env_get t config order_key w' >>= λ o'.
                if lists_name (some n.name) (strsplit 32 o')
                then flags_good t config s w'
                else ok false)
              ≡ ok true
            → (elim o [
              | none ↦ err no_error
              | some b ↦ grub_env_get t config order_key w' >>= λ o'.
                  if lists_name (some b) (strsplit 32 o')
                  then flags_good t config s w'
                  else ok false
            ])
              ≡ ok true
        at none e h = cc
        at (some b) e h =
            subst
              (λ x.
                (grub_env_get t config order_key w' >>= λ o'.
                if lists_name (some x) (strsplit 32 o') then flags_good t config s w' else ok false)
                ≡ ok true)
              (sym (some-injective b n.name e)) h

    order_rest_cases :
        (ss : Slots) → (order_rest s ss ≡ []) ⊎ ((q : Text) × (order_rest s ss ≡ 32 ∷ q))
    unfolding order_rest
    order_rest_cases [] = inl refl
    order_rest_cases (x ∷ ss) = elim (Bool-cases (text_eq x.name s.name)) [
      | inl e ↦ rw e (order_rest_cases ss)
      | inr e ↦ elim (Option-cases x.bootname) [
        | inl o ↦ rw (e, o) (order_rest_cases ss)
        | inr (b, o) ↦ inr (b ++ order_rest s ss, rw (e, o) refl)
      ]
    ]

    chomp_rest :
        (r : Text)
        → (r ≡ []) ⊎ ((q : Text) × (r ≡ 32 ∷ q))
        → (chomp r ≡ []) ⊎ ((q : Text) × (chomp r ≡ 32 ∷ q))
    unfolding chomp
    chomp_rest r (inl e) = inl (rw e refl)
    chomp_rest r (inr (q, e)) = rw e (chomp_space q)

    order_read : chomp (order_primary config.slots s) ≡ n.name ++ chomp (order_rest s config.slots)
    unfolding order_primary
    order_read =
        ap (λ o. chomp (string_new o ++ order_rest s config.slots)) n.named
        ∙ chomp-append n.name (order_rest s config.slots) n.graphic

    ordered :
        (old : Option Text)
        → assigned
            ((ok_key (some n.name), codes "1")
              ∷ (try_key (some n.name), codes "0")
              ∷ (order_key, order_primary config.slots s)
              ∷ [])
            order_key
            old
          ≡ some (order_primary config.slots s)
    unfolding assigned
    ordered old = rw (text_eq_refl order_key) refl

    primary_views :
        (grub_set_primary t config s w).0 ≡ ok tt
        → let w' = (grub_set_primary t config s w).1 in
          (flags_good t config s w' ≡ ok true)
          × (grub_env_get t config order_key w' ≡ ok (n.name ++ chomp (order_rest s config.slots)))
    unfolding assigned strtoull chomp
    primary_views h =
        let order = order_primary config.slots s in
        let ps =
          (ok_key (some n.name), codes "1")
          ∷ (try_key (some n.name), codes "0")
          ∷ (order_key, order)
          ∷ [] in
        let same = set_primary-named s n.name w n.named in
        let vs : All IsVariable ps = (
          ok_key-IsVariable n.name (codes "1") n.graphic n.no_sign (refl, tt),
          (
            try_key-IsVariable n.name (codes "0") n.graphic n.no_sign (refl, tt),
            ((order_key-Free.0, order_key-Free.1, n.order), tt),
          ),
        ) in
        let done = sym (ap (λ x. x.0) same) ∙ h in
        let w' = (grub_env_set t config (pairs ps) w).1 in
        (
          ap (λ x. flags_good t config s x.1) same
              ∙ flags_good-view t config grub s n.name (codes "1") w' n.named n.graphic n.no_sign
                  (grub_env_set-view t config grub w ps (ok_key (some n.name)) vs done
                    ∙ rw (text_eq_refl (ok_key (some n.name)), try-ne-ok n.name, order-ne-ok n.name)
                        refl)
                  (grub_env_set-view t config grub w ps (try_key (some n.name)) vs done
                    ∙ rw (text_eq_refl (try_key (some n.name)), order-ne-try n.name) refl),
          ap (λ x. grub_env_get t config order_key x.1) same
              ∙ grub_env_get-view t config grub w' order_key order_key-Free.0
              ∙ ap read_value (
                  grub_env_set-view t config grub w ps order_key vs done
                  ∙ ordered (value_of (grub.view w) order_key))
              ∙ ap ok order_read,
        )

  -- The GRUB backend keeps the contract of a backend, on every environment, for a slot whose
  -- bootname is not empty, has no white space and no `=`, and is carried by no slot before it in
  -- the table, where no bootname on the order that is written has a newline.
  pub grub_backend-IsBackend : IsBackend (grub_backend t config) (λ w s. IsNamed config.slots s)
  grub_backend-IsBackend = record {
    primary_read = λ s w n h. (primary_back s n w h).0;
    primary_good = λ s w n h. (primary_back s n w h).1;
    bad_read = λ s w n h. (
      λ z. cc (
        bad_flags s n w h,
        get_state-flags t config grub s (grub_set_state t config s false w).1 z,
      ),
      λ z. cc (
        bad_flags s n w h,
        get_primary-flags t config grub (grub_set_state t config s false w).1 s z,
      ),
    );
  }
    where
      primary_back :
          (s : Slot) (n : IsNamed config.slots s) (w : World)
          → (grub_set_primary t config s w).0 ≡ ok tt
          → (grub_get_primary t config (grub_set_primary t config s w).1 ≡ ok s)
            × (grub_get_state t config s (grub_set_primary t config s w).1 ≡ ok true)
      primary_back s n w h =
          let (flags, order) = primary_views s n w h in
          read_back s n w (grub_set_primary t config s w).1 (chomp (order_rest s config.slots))
            (chomp_rest s n w (order_rest s config.slots) (order_rest_cases s n w config.slots))
            flags order
