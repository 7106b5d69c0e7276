-- ===== src/Boot/Uboot/State.antt =====
-- Marking a slot good or bad: `r_uboot_set_state` against `r_uboot_get_state` and
-- `r_uboot_get_primary`.
use rauc.Prelude.{
  ℕ, zero, suc, ◌<◌, ◌^◌, ◌≡◌, ◌≢◌, refl, ap, ◌∙◌, Bool, true, false, some, List, [], ◌∷◌, Text,
  strsplit, print_hex, ltb, Result, ok, err, ◌>>=◌, arith, print_digits,
}
use rauc.Slot.{Slot, Slots}
use rauc.Boot.Tools.{Tools, BootConfig, attempts_or}
use rauc.Boot.Uboot.{
  boot_order, left_key, lists_name, env_get, env_set, attempts_left, find_slot, find_primary,
  get_primary, get_state, set_state, remove_from_order,
}
use rauc.Boot.Uboot.Laws.{
  FwLaws, left_key-ne-boot_order, view-set_self, view-set_ne, env_get_graphic, env_get_same,
  and_then-ok, print_hex-ne-nil,
}
use rauc.Prelude.Number.RoundTrip.{strtoull-print_hex, print_hex-IsGraphic}

zero_nonempty : print_hex 0 ≢ []
unfolding print_hex print_digits
zero_nonempty e = cc

nonempty : (n : ℕ) → n < 2 ^ 32 → print_hex n ≢ []
nonempty zero h = zero_nonempty
nonempty (suc n) h = print_hex-ne-nil (suc n) (omega arith) h

module _ (t : Tools) where
  open t use {World}

  -- Only a slot that has attempts left is found.
  find_slot_left :
      (name : Text) (ss : Slots) (w : World) (s : Slot)
      → find_slot t name ss w ≡ ok (some s)
      → attempts_left t s w ≡ ok true
  unfolding find_slot
  find_slot_left name [] w s h = cc
  find_slot_left name (x ∷ ss) w s h = ground (arith, find_slot_left name ss w s)

  find_primary_left :
      (ns : List Text) (ss : Slots) (w : World) (s : Slot)
      → find_primary t ns ss w ≡ ok s
      → attempts_left t s w ≡ ok true
  unfolding find_primary
  find_primary_left [] ss w s h = cc
  find_primary_left (n ∷ ns) ss w s h =
      ground (arith, find_primary_left ns ss w s, find_slot_left n ss w s)

  get_primary_left :
      (config : BootConfig) (w : World) (s : Slot)
      → get_primary t config w ≡ ok s
      → attempts_left t s w ≡ ok true
  unfolding get_primary
  get_primary_left config w s h = elim_order (env_get t boot_order w) h
    where
      elim_order :
          (r : Result Text)
          → (r >>= λ order. find_primary t (strsplit 32 order) config.slots w) ≡ ok s
          → attempts_left t s w ≡ ok true
      elim_order (ok order) h = find_primary_left (strsplit 32 order) config.slots w s h
      elim_order (err e) h = cc

  get_state_left :
      (s : Slot) (w : World) → get_state t s w ≡ ok true → attempts_left t s w ≡ ok true
  unfolding get_state
  get_state_left s w h = ground arith

module _ (t : Tools) (fw : FwLaws t) where
  open t use {World}

  counter_written :
      (slot s : Slot) (n : ℕ) (w : World)
      → (env_set t (left_key slot.bootname) (print_hex n) w).0 ≡ ok tt
      → n < 2 ^ 32
      → s.bootname ≡ slot.bootname
      → attempts_left t s (env_set t (left_key slot.bootname) (print_hex n) w).1 ≡ ok (ltb 0 n)
  unfolding attempts_left
  counter_written slot s n w h small same = rw (
    same,
    env_get_graphic t fw (env_set t (left_key slot.bootname) (print_hex n) w).1
        (left_key slot.bootname) (print_hex n) (print_hex-IsGraphic n)
        (view-set_self t fw w (left_key slot.bootname) (print_hex n) h (nonempty n small)),
    strtoull-print_hex n small,
  )

  -- A successful `r_uboot_set_state` leaves the counter at what it wrote.
  set_state_left :
      (config : BootConfig) (slot : Slot) (good : Bool) (w : World) (s : Slot)
      → (set_state t config slot good w).0 ≡ ok tt
      → config.boot_default_attempts < 2 ^ 32
      → s.bootname ≡ slot.bootname
      → attempts_left t s (set_state t config slot good w).1 ≡ ok good
  unfolding set_state attempts_or
  set_state_left config slot true w s success small same =
      let n = attempts_or 3 config.boot_default_attempts in
      counter_written slot s n w success (ground arith) same ∙ ap ok (ground arith)
  set_state_left config slot false w s success small same =
      let (done, written, e) =
        and_then-ok t fw (remove_from_order t slot w)
          (env_set t (left_key slot.bootname) (print_hex 0)) success in
      rw e (counter_written slot s 0 (remove_from_order t slot w).1 written (omega arith) same)

  -- After a slot has been marked bad, no slot of its bootname counts as good or is primary.
  pub set_state-bad :
      (config : BootConfig) (slot : Slot) (w : World) (s : Slot)
      → (set_state t config slot false w).0 ≡ ok tt
      → config.boot_default_attempts < 2 ^ 32
      → s.bootname ≡ slot.bootname
      → let w' = (set_state t config slot false w).1 in
        (get_state t s w' ≢ ok true) × (get_primary t config w' ≢ ok s)
  set_state-bad config slot w s success small same =
      let left = set_state_left config slot false w s success small same in
      (
        λ h. cc (left, get_state_left t s (set_state t config slot false w).1 h),
        λ h. cc (left, get_primary_left t config (set_state t config slot false w).1 s h),
      )

  -- After a slot has been marked good, it counts as good exactly if the boot order lists it:
  -- marking good does not put a slot back on the order.
  pub set_state-good :
      (config : BootConfig) (slot : Slot) (w : World)
      → (set_state t config slot true w).0 ≡ ok tt
      → config.boot_default_attempts < 2 ^ 32
      → get_state t slot (set_state t config slot true w).1
        ≡ (env_get t boot_order w >>= λ order. ok (lists_name slot.bootname (strsplit 32 order)))
  unfolding get_state set_state
  set_state-good config slot w success small =
      rw
        (
          env_get_same t fw (set_state t config slot true w).1 w boot_order (
              view-set_ne t fw w (left_key slot.bootname) _ boot_order success
                (left_key-ne-boot_order slot.bootname)),
          set_state_left config slot true w slot success small refl,
        )
        (ground arith)
