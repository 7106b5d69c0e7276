-- ===== src/Boot/Uboot/Primary.antt =====
-- Choosing and reading the primary slot: `r_uboot_set_primary` against `r_uboot_get_primary`.
use rauc.Prelude.{
  ℕ, ◌<◌, ◌^◌, ◌≡◌, ◌≢◌, refl, sym, ap, ◌∙◌, ◌⊎◌, inl, inr, true, Option, some, List, [], ◌∷◌, ◌++◌,
  Text, strcmp0_eq, text_eq_refl, append_assoc, append-nil, chomp, chomp-append, chomp_space,
  strsplit, join_rest, lt→ltb, Bool-cases, IsGraphic, All, print_hex, Result, ok, arith,
}
use rauc.Boot.Names.{first_name, append-nil_left, find_by_bootname}
use mathlib.Core.Path.{subst}
use rauc.Slot.{Slot, Slots}
use rauc.Boot.Tools.{Tools, BootConfig, attempts_or, string_new}
use rauc.Boot.Uboot.{
  boot_order, left_key, keep_names, is_skipped, append_names, env_get, env_set, attempts_left,
  find_slot, find_primary, get_primary, get_state, lists_name, current_order, set_primary,
}
use rauc.Boot.Uboot.Laws.{
  FwLaws, boot_order-ne-left_key, view-set_self, view-set_ne, env_get_view, env_get_graphic,
  and_then-ok, print_hex-ne-nil,
}
use rauc.Prelude.Number.RoundTrip.{strtoull-print_hex, print_hex-IsGraphic}

-- The loop that appends names writes the names that are kept, each behind a space.
append_names-eq :
    (b : Option Text) (acc : Text) (ns : List Text)
    → append_names b acc ns ≡ acc ++ join_rest 32 (keep_names b ns)
unfolding append_names keep_names join_rest
append_names-eq b acc [] = sym (append-nil acc)
append_names-eq b acc (n ∷ ns) = elim (Bool-cases (is_skipped b n)) [
  | inl e ↦ rw e (append_names-eq b acc ns)
  | inr e ↦ rw e (append_names-eq b (acc ++ 32 ∷ n) ns ∙ append_assoc acc (32 ∷ n) _)
]

rest_cases :
    (ns : List Text)
    → let r = chomp (join_rest 32 ns ++ 10 ∷ []) in (r ≡ []) ⊎ ((q : Text) × (r ≡ 32 ∷ q))
unfolding join_rest chomp
rest_cases [] = inl refl
rest_cases (n ∷ ns) = chomp_space ((n ++ join_rest 32 ns) ++ 10 ∷ [])

lists_first : (b : Text) (ns : List Text) → lists_name (some b) (b ∷ ns) ≡ true
unfolding lists_name strcmp0_eq
lists_first b ns = rw (text_eq_refl b) refl

module _ (t : Tools) (fw : FwLaws t) where
  open t use {World}

  -- The slots that are found under a name carry it.
  find_slot_first :
      (b : Text) (slot : Slot) (ss : Slots) (w : World)
      → find_by_bootname ss b ≡ some slot
      → attempts_left t slot w ≡ ok true
      → find_slot t b ss w ≡ ok (some slot)
  unfolding find_by_bootname find_slot
  find_slot_first b slot [] w h a = cc
  find_slot_first b slot (s ∷ ss) w h a = ground (arith, find_slot_first b slot ss w)

  attempts_left_lem :
      (w : World) (slot : Slot) (n : ℕ)
      → 0 < n
      → n < 2 ^ 32
      → fw.view w (left_key slot.bootname) ≡ some (print_hex n)
      → attempts_left t slot w ≡ ok true
  unfolding attempts_left
  attempts_left_lem w slot n pos small h =
      rw
        (
          env_get_graphic t fw w (left_key slot.bootname) (print_hex n) (print_hex-IsGraphic n) h,
          strtoull-print_hex n small,
        )
        (ap ok (lt→ltb 0 n pos))

  -- The order begins with the bootname, as it is read.
  read_order :
      (w : World) (b : Text) (ns : List Text)
      → b ≢ []
      → All IsGraphic b
      → fw.view w boot_order ≡ some (b ++ join_rest 32 ns)
      → (order : Text) × (others : List Text) × (env_get t boot_order w ≡ ok order)
        × (strsplit 32 order ≡ b ∷ others)
  read_order w b ns nonempty graphic order =
      let rest = chomp (join_rest 32 ns ++ 10 ∷ []) in
      let (others, split) = first_name b rest nonempty graphic (rest_cases ns) in
      (
        b ++ rest,
        others,
        env_get_view t fw w boot_order _ order
            ∙ ap ok (rw (append_assoc b (join_rest 32 ns) (10 ∷ [])) (chomp-append b _ graphic)),
        split,
      )

  module _ (config : BootConfig) (slot : Slot) (w : World) (b : Text)
      (named : slot.bootname ≡ some b) (nonempty : b ≢ []) (graphic : All IsGraphic b)
      (first : find_by_bootname config.slots b ≡ some slot)
      (small : config.boot_attempts_primary < 2 ^ 32)
      (success : (set_primary t config slot w).0 ≡ ok tt) where
    -- The attempts are written first, then the order, which begins with the bootname.
    primary_views :
        let w' = (set_primary t config slot w).1 in
        (attempts_left t slot w' ≡ ok true)
        × ((ns : List Text) × (fw.view w' boot_order ≡ some (b ++ join_rest 32 ns)))
    unfolding set_primary attempts_or
    primary_views = (
      rw joined (attempts_left_lem w2 slot n pos (ground arith) left_view),
      (kept, rw joined order_view),
    )
      where
        n : ℕ
        n = attempts_or 3 config.boot_attempts_primary

        pos : 0 < n
        pos = ground arith

        kept : List Text
        kept = keep_names slot.bootname (strsplit 32 (current_order t config slot w))

        order : Text
        order =
            append_names slot.bootname (string_new slot.bootname)
              (strsplit 32 (current_order t config slot w))

        first_set : Result (Unit {0}) × World
        first_set = env_set t (left_key slot.bootname) (print_hex n) w

        w2 : World
        w2 = (env_set t boot_order order first_set.1).1

        parts :
            (first_set.0 ≡ ok tt)
            × ((env_set t boot_order order first_set.1).0 ≡ ok tt)
            × (set_primary t config slot w ≡ env_set t boot_order order first_set.1)
        parts = and_then-ok t fw first_set (env_set t boot_order order) success

        joined : (set_primary t config slot w).1 ≡ w2
        joined = ap (λ p. p.1) parts.2

        order-eq : order ≡ b ++ join_rest 32 kept
        order-eq =
            append_names-eq slot.bootname _ _ ∙ ap (λ o. string_new o ++ join_rest 32 kept) named

        order_view : fw.view w2 boot_order ≡ some (b ++ join_rest 32 kept)
        order_view =
            view-set_self t fw first_set.1 boot_order order parts.1
              (λ e. nonempty (append-nil_left b (join_rest 32 kept) (sym order-eq ∙ e)))
            ∙ ap some order-eq

        left_view : fw.view w2 (left_key slot.bootname) ≡ some (print_hex n)
        left_view =
            view-set_ne t fw first_set.1 boot_order order _ parts.1
              (boot_order-ne-left_key slot.bootname)
            ∙ view-set_self t fw w (left_key slot.bootname) (print_hex n) parts.0
                (print_hex-ne-nil n pos (ground arith))

    primary_back :
        let w' = (set_primary t config slot w).1 in
        (get_primary t config w' ≡ ok slot) × (get_state t slot w' ≡ ok true)
    unfolding get_primary find_primary get_state
    primary_back =
        let (left, (ns, order)) = primary_views in
        let w' = (set_primary t config slot w).1 in
        let (text, others, read, split) = read_order w' b ns nonempty graphic order in
        (
          rw (read, split, find_slot_first b slot config.slots w' first left) refl,
          rw
              (
                read,
                split,
                subst (λ o. lists_name o (b ∷ others) ≡ true) (sym named) (lists_first b others),
              )
              left,
        )

    -- After `r_uboot_set_primary` has succeeded for a slot, `r_uboot_get_primary` returns that
    -- slot: for a bootname that is not empty and holds no white space, where the slot is the first
    -- of its bootname in the table, and the configured attempts fit 32 bits.
    pub get_primary-set_primary : get_primary t config (set_primary t config slot w).1 ≡ ok slot
    get_primary-set_primary = primary_back.0

    -- After `r_uboot_set_primary` has succeeded for such a slot, the slot is good.
    pub get_state-set_primary : get_state t slot (set_primary t config slot w).1 ≡ ok true
    get_state-set_primary = primary_back.1
