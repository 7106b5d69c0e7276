-- ===== src/Boot/Grub/Flags.antt =====
-- What the flags of a slot tell `r_grub_get_state` and `r_grub_get_primary`.
use rauc.Prelude.{
  ◌≡◌, true, some, List, [], ◌∷◌, Text, codes, chomp, strsplit, strtoull, Free, All, IsGraphic,
  ◌==◌, >>=-eq-ok, ok, arith,
}
use rauc.Slot.{Slot, Slots}
use rauc.Boot.Tools.{Tools, BootConfig}
use rauc.Boot.Grub.{
  order_key, ok_key, try_key, grub_env_get, flags_good, grub_get_state, grub_find_slot,
  grub_find_primary, grub_get_primary,
}
use rauc.Boot.Grub.Laws.{GrubLaws, value_of, grub_env_get-view}
use rauc.Boot.Grub.Keys.{ok_key-IsVariable, try_key-IsVariable}

module _ (t : Tools) (config : BootConfig) (grub : GrubLaws t config) where
  open t use {World}

  pub flags_good-view :
      (s : Slot) (b x : Text) (w : World)
      → s.bootname ≡ some b
      → All IsGraphic b
      → Free 61 b
      → value_of (grub.view w) (ok_key (some b)) ≡ some x
      → value_of (grub.view w) (try_key (some b)) ≡ some (codes "0")
      → flags_good t config s w ≡ ok (strtoull 0 (chomp x) == 1)
  unfolding flags_good strtoull chomp
  flags_good-view s b x w named g n is_ok is_try =
      rw
        (
          named,
          grub_env_get-view t config grub w (ok_key (some b)) (ok_key-IsVariable b [] g n tt).0,
          grub_env_get-view t config grub w (try_key (some b)) (try_key-IsVariable b [] g n tt).0,
          is_ok,
          is_try,
        )
        (ground arith)

  -- Only a slot with good flags is good, or found.
  pub get_state-flags :
      (s : Slot) (w : World)
      → grub_get_state t config s w ≡ ok true
      → flags_good t config s w ≡ ok true
  unfolding grub_get_state
  get_state-flags s w h = ground arith

  find_slot-flags :
      (name : Text) (ss : Slots) (w : World) (s : Slot)
      → grub_find_slot t config name ss w ≡ ok (some s)
      → flags_good t config s w ≡ ok true
  unfolding grub_find_slot
  find_slot-flags name [] w s h = cc
  find_slot-flags name (x ∷ ss) w s h = ground (arith, find_slot-flags name ss w s)

  find_primary-flags :
      (ns : List Text) (ss : Slots) (w : World) (s : Slot)
      → grub_find_primary t config ns ss w ≡ ok s
      → flags_good t config s w ≡ ok true
  unfolding grub_find_primary
  find_primary-flags [] ss w s h = cc
  find_primary-flags (n ∷ ns) ss w s h =
      ground (arith, find_primary-flags ns ss w s, find_slot-flags n ss w s)

  pub get_primary-flags :
      (w : World) (s : Slot)
      → grub_get_primary t config w ≡ ok s
      → flags_good t config s w ≡ ok true
  unfolding grub_get_primary
  get_primary-flags w s h =
      let (order, read, found) = >>=-eq-ok (grub_env_get t config order_key w) _ h in
      find_primary-flags (strsplit 32 order) config.slots w s found
