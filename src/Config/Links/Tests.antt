-- ===== src/Config/Links/Tests.antt =====
-- A configuration whose slot names its grandparent's child as its parent.
use rauc.Prelude.{
  ◌≡◌, refl, ◌⊎◌, none, some, List, [], ◌∷◌, Text, codes, text_eq, All, ok, err, config_parent_loop,
}
use rauc.Samples.{make_slot, rootfs_a, app_a}
use rauc.Slot.{Slot, Slots, lookup_slot, get_parent_root, st_unknown}
use rauc.Config.Links.{parent_of, set_parent, relink, climb, fix_grandparent_links}
use rauc.Config.Links.Laws.{IsFlat, fix_grandparent_links-IsFlat, get_parent_root_flat}

abbrev grandchild : Slot
grandchild = make_slot (codes "data.0") (codes "data") none (some (codes "app.0")) st_unknown

abbrev chain : Slots
chain = grandchild ∷ app_a ∷ rootfs_a ∷ []

abbrev flat : Slots
flat = record grandchild { parent = some (codes "rootfs.0") } ∷ app_a ∷ rootfs_a ∷ []

abbrev names : List Text
names = codes "data.0" ∷ codes "app.0" ∷ codes "rootfs.0" ∷ []

chain_fixed : fix_grandparent_links names chain ≡ ok flat
unfolding fix_grandparent_links parent_of lookup_slot text_eq climb relink set_parent
chain_fixed = refl

-- Two slots that are each other's parent.
loop_refused :
    fix_grandparent_links
      (codes "app.0" ∷ [])
      (app_a ∷ record rootfs_a { parent = some (codes "app.0") } ∷ [])
    ≡ err config_parent_loop
unfolding fix_grandparent_links parent_of lookup_slot text_eq climb
loop_refused = refl

fix_grandparent_links-IsFlat_example : All (IsFlat flat) names
fix_grandparent_links-IsFlat_example = fix_grandparent_links-IsFlat names chain flat chain_fixed

get_parent_root_flat_example :
    (root : Slot) × (get_parent_root flat app_a ≡ some root)
    × (((root ≡ app_a) × ((p : Text) → app_a.parent ≡ some p → lookup_slot flat p ≡ none))
        ⊎ ((p : Text) × (app_a.parent ≡ some p)
            × (lookup_slot flat p ≡ some root)
            × (root.parent ≡ none)))
unfolding lookup_slot text_eq
get_parent_root_flat_example =
    get_parent_root_flat flat app_a refl
      (fix_grandparent_links-IsFlat names chain flat chain_fixed).1.0
