-- ===== src/Install/Plans.antt =====
-- src/install.c: `r_install_make_plans` and the checks before anything is written.
pub mod Laws
pub mod Checks
mod Tests
use rauc.Prelude.{
  ◌≡◌, Bool, true, false, not, ◌&&◌, ◌||◌, Option, none, some, List, [], ◌∷◌, ◌++◌, Text, codes,
  text_eq, strcmp0_eq, if◌then◌else◌, Result, ok, err, ◌>>=◌, ◌>>◌, install_failed, install_mounted,
  aborted, file_noent,
}
use rauc.Slot.{Slot, remove_fast}
use rauc.Manifest.{Image, Manifest, Handler, get_update_handler}
use rauc.Install.Select.{lookup_target}

-- `RArtifactRepo`, as an installation plan names it.
pub record Repo : Type 0 where
  pub name : Text
  pub path : Text

-- What an `RImageInstallPlan` installs to: a slot with its handler, or an artifact repository.
pub data Target : Type 0 where
  to_slot : Slot → Handler → Target
  to_repo : Repo → Target

-- `RImageInstallPlan`
pub record Plan : Type 0 where
  pub image : Image
  pub target : Target

slot_classes_loop : List Image → List Text → List Text
slot_classes_loop [] acc = acc
slot_classes_loop (i ∷ is) acc =
    slot_classes_loop is
      (elim i.artifact [ some a ↦ acc | none ↦ remove_fast i.slotclass acc ++ i.slotclass ∷ [] ])

-- `get_all_manifest_slot_classes`
unfoldable pub get_all_manifest_slot_classes : Manifest → List Text
unfolding slot_classes_loop remove_fast
get_all_manifest_slot_classes m = slot_classes_loop m.images []

-- The search for the image of a class, with the match so far: an image of the system's variant
-- ends it, and the first image without a variant is kept.
unfoldable pub match_image : Option Text → Text → Option Image → List Image → Option Image
match_image variant cls found [] = found
match_image variant cls found (i ∷ is) =
    let default : Option Image = elim found [ none ↦ some i | some f ↦ some f ] in
    let skip = match_image variant cls found is in
    let kept = match_image variant cls default is in
    if not (text_eq i.slotclass cls) then skip else elim i.variant [
      | none ↦ kept
      | some v ↦ if strcmp0_eq (some v) variant then some i else skip
    ]

-- The plan for one slot class.
unfoldable pub plan_class : Option Text → List (Text × Slot) → List Image → Text → Result Plan
plan_class variant group images cls = elim (match_image variant cls none images) [
  | none ↦ err install_failed
  | some i ↦ elim (lookup_target group i.slotclass) [
    | none ↦ err install_failed
    | some s ↦
        if s.readonly
        then err install_failed
        else do h ← get_update_handler i s; ok (record { image = i; target = to_slot s h })
  ]
]

unfoldable pub plan_classes :
    Option Text → List (Text × Slot) → List Image → List Text → Result (List Plan)
plan_classes variant group images [] = ok []
plan_classes variant group images (c ∷ cs) = do
  p ← plan_class variant group images c
  ps ← plan_classes variant group images cs
  ok (p ∷ ps)

-- The plans for artifact images, each to a repository of the configuration.
unfoldable pub plan_artifacts : (Text → Option Repo) → List Image → Result (List Plan)
plan_artifacts repos [] = ok []
plan_artifacts repos (i ∷ is) =
    let rest = plan_artifacts repos is in
    elim i.artifact [
      | none ↦ rest
      | some a ↦ elim (repos i.slotclass) [
        | none ↦ err install_failed
        | some r ↦ do ps ← rest; ok (record { image = i; target = to_repo r } ∷ ps)
      ]
    ]

abbrev pub nonempty_plans : List Plan → Result (List Plan)
nonempty_plans [] = err install_failed
nonempty_plans (p ∷ ps) = ok (p ∷ ps)

-- `r_install_make_plans`; `artifacts` is the result of `r_artifacts_init` and `r_artifacts_prune`,
-- which run between the two kinds of plans.
unfoldable pub make_plans :
    Option Text
    → List (Text × Slot)
    → (Text → Option Repo)
    → Result (Unit {0})
    → Manifest
    → Result (List Plan)
make_plans variant group repos artifacts m = do
  slot_plans ← plan_classes variant group m.images (get_all_manifest_slot_classes m)
  artifacts
  artifact_plans ← plan_artifacts repos m.images
  nonempty_plans (slot_plans ++ artifact_plans)

abbrev pub is_mounted : Slot → Bool
is_mounted s = elim s.mount_point [
  | some m ↦ true
  | none ↦ elim s.ext_mount_point [ some m ↦ true | none ↦ false ]
]

-- `pre_install_check_slot_mount_status`
unfoldable pub check_mount_status : Slot → Image → Result (Unit {0})
check_mount_status s i =
    if not (is_mounted s)
    then ok tt
    else if s.allow_mounted && i.hooks.install
    then ok tt
    else err install_mounted

all_exist : (Text → Bool) → List Text → Bool
all_exist exists [] = true
all_exist exists (f ∷ fs) = exists f && all_exist exists fs

-- The checks of one plan's files in `pre_install_checks`: the image, unless it has converted ones,
-- and every converted image. Names are absolute here, and `exists` is `g_file_test`. An image
-- without a file name must have an install hook: that is an assertion.
unfoldable pub check_files : (Text → Bool) → Image → Result (Unit {0})
unfolding all_exist
check_files exists i = elim i.filename [
  | none ↦ if i.hooks.install then ok tt else err aborted
  | some f ↦
      if not (exists f) && (elim i.converted [ [] ↦ true | c ∷ cs ↦ false ])
      then err file_noent
      else if all_exist exists i.converted
      then ok tt
      else err file_noent
]

unfoldable pub check_target : (Text → Bool) → Plan → Result (Unit {0})
check_target exists p = elim p.target [
  | to_slot s h ↦ if exists s.device then check_mount_status s p.image else err file_noent
  | to_repo r ↦ if exists r.path then ok tt else err file_noent
]

-- `pre_install_checks`
unfoldable pub pre_install_checks : (Text → Bool) → List Plan → Result (Unit {0})
pre_install_checks exists [] = ok tt
pre_install_checks exists (p ∷ ps) = do
  check_files exists p.image
  check_target exists p
  pre_install_checks exists ps

-- `get_boot_mark_slot`: the root slot with a bootname among the targets. Two of them abort the
-- program (`g_error`), which is `none` here.
unfoldable pub boot_mark_loop : List Plan → Option Slot → Option (Option Slot)
boot_mark_loop [] bootslot = some bootslot
boot_mark_loop (p ∷ ps) bootslot = elim p.target [
  | to_repo r ↦ boot_mark_loop ps bootslot
  | to_slot s h ↦ elim s.parent [
    | some parent ↦ boot_mark_loop ps bootslot
    | none ↦ elim s.bootname [
      | none ↦ boot_mark_loop ps bootslot
      | some b ↦ elim bootslot [ some other ↦ none | none ↦ boot_mark_loop ps (some s) ]
    ]
  ]
]

unfoldable pub get_boot_mark_slot : List Plan → Option (Option Slot)
unfolding boot_mark_loop
get_boot_mark_slot ps = boot_mark_loop ps none
