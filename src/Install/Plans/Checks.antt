-- ===== src/Install/Plans/Checks.antt =====
-- What holds of the targets after `pre_install_checks`.
use rauc.Prelude.{
  ◌≡◌, ◌⊎◌, refl, inl, inr, Bool, true, false, not, ◌&&◌, List, [], ◌∷◌, Text, All, if◌then◌else◌,
  Result, ok, err, >>-eq-ok, install_mounted, file_noent,
}
use rauc.Manifest.{Image}
use rauc.Install.Plans.{
  Plan, Target, to_slot, to_repo, is_mounted, check_mount_status, check_files, check_target,
  pre_install_checks,
}

-- A target that may be written: the device of a slot is there, and the slot is not mounted or
-- its image's install hook may deal with that; the directory of a repository is there.
abbrev pub Writable : (Text → Bool) → Plan → Type 0
Writable exists p = elim p.target [
  | to_slot s h ↦
      (exists s.device ≡ true)
      × ((is_mounted s ≡ false) ⊎ ((s.allow_mounted ≡ true) × (p.image.hooks.install ≡ true)))
  | to_repo r ↦ exists r.path ≡ true
]

mount_status_cases :
    (m a h : Bool)
    → (if not m then ok (tt {0}) else if a && h then ok tt else err install_mounted) ≡ ok tt
    → (m ≡ false) ⊎ ((a ≡ true) × (h ≡ true))
mount_status_cases false a h e = inl refl
mount_status_cases true true true e = inr (refl, refl)
mount_status_cases true true false e = cc
mount_status_cases true false h e = cc

slot_target :
    (c : Bool) (m : Result (Unit {0}))
    → (if c then m else err file_noent) ≡ ok tt
    → (c ≡ true) × (m ≡ ok tt)
slot_target true m e = (refl, e)
slot_target false m e = cc

check_target-Writable :
    (exists : Text → Bool) (p : Plan) → check_target exists p ≡ ok tt → Writable exists p
unfolding check_target check_mount_status
check_target-Writable exists p e = at p.image p.target e
  where
    at :
        (i : Image) (g : Target)
        → check_target exists (record { image = i; target = g }) ≡ ok tt
        → Writable exists (record { image = i; target = g })
    at i (to_slot s h) k =
        let (there, free) = slot_target (exists s.device) (check_mount_status s i) k in
        (there, mount_status_cases (is_mounted s) s.allow_mounted i.hooks.install free)
    at i (to_repo r) k = (slot_target (exists r.path) (ok tt) k).0

-- After the checks of an installation have passed, every target may be written: a slot's device
-- is there and the slot is not mounted, or it allows that and the image has an install hook.
pub pre_install_checks-Writable :
    (exists : Text → Bool) (ps : List Plan)
    → pre_install_checks exists ps ≡ ok tt
    → All (Writable exists) ps
unfolding pre_install_checks
pre_install_checks-Writable exists [] e = tt
pre_install_checks-Writable exists (p ∷ ps) e =
    let (e1, k1) = >>-eq-ok (check_files exists p.image) _ e in
    let (e2, k2) = >>-eq-ok (check_target exists p) _ k1 in
    (check_target-Writable exists p e2, pre_install_checks-Writable exists ps k2)
