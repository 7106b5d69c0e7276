-- ===== src/Install/Bundle/Gate.antt =====
-- The order of the checks and the actions of an installation, as a predicate of the actions.
use rauc.Prelude.{◌≡◌, ◌⊎◌, true, false, Option, List, [], ◌∷◌, Text, ok, inl, inr}
use rauc.Manifest.{Manifest}
use rauc.Machine.{
  SystemConfig, Bundle, Event, state_set, primary_set, saved, wrote, stored, opened, mounted,
  hook_passed, handed_over, unmounted,
}
use rauc.Install.Slots.{InstallArgs}
use rauc.Install.Bundle.{verify_compatible, check_version_limits, check_opened}

-- An action was taken.
abbrev pub Has : Event → List Event → Type 0
Has e [] = ⊥
Has e (x ∷ t) = (x ≡ e) ⊎ Has e t

module _ (config : SystemConfig) (args : InstallArgs) where
  -- The run opened a bundle that passed the checks for an opened bundle.
  abbrev pub Opened : Bundle → List Event → Type 0
  Opened bundle t = Has (opened bundle) t × (check_opened args bundle ≡ ok tt)

  -- The install-check hook passed the manifest, or there is none and the compatible fits.
  abbrev pub Compatible : Manifest → List Event → Type 0
  Compatible manifest t =
      ((manifest.install_check ≡ true) × Has (hook_passed manifest) t)
      ⊎ ((manifest.install_check ≡ false) × (verify_compatible config args manifest ≡ ok tt))

  -- The run opened and mounted a bundle, and its checks passed.
  abbrev pub Permit : List Event → Type 0
  Permit t =
      (bundle : Bundle) × (manifest : Manifest) × Opened bundle t
      × Has (mounted bundle manifest) t
      × Compatible manifest t
      × (check_version_limits config args manifest ≡ ok tt)

  -- Before every write of a slot, every installation of an artifact and every call of a custom
  -- handler, the run was permitted to do it.
  abbrev pub Gated : List Event → Type 0
  Gated [] = Unit
  Gated (wrote n w ∷ t) = Permit t × Gated t
  Gated (stored n ∷ t) = Permit t × Gated t
  Gated (handed_over ∷ t) = Permit t × Gated t
  Gated (state_set n good ∷ t) = Gated t
  Gated (primary_set n ∷ t) = Gated t
  Gated (saved n st w ∷ t) = Gated t
  Gated (opened b ∷ t) = Gated t
  Gated (mounted b m ∷ t) = Gated t
  Gated (hook_passed m ∷ t) = Gated t
  Gated (unmounted ∷ t) = Gated t

  abbrev pub Free : List Event → Type 0
  Free t = Permit t × Gated t

  Compatible-later :
      (m : Manifest) (e : Event) (t : List Event) → Compatible m t → Compatible m (e ∷ t)
  Compatible-later m e t (inl (q, h)) = inl (q, inr h)
  Compatible-later m e t (inr h) = inr h

  Permit-later : (e : Event) (t : List Event) → Permit t → Permit (e ∷ t)
  Permit-later e t (b, m, (o, k), h, c, v) = (b, m, (inr o, k), inr h, Compatible-later m e t c, v)

  Gated-later : (e : Event) (t : List Event) → Free t → Gated (e ∷ t)
  Gated-later (wrote n w) t h = h
  Gated-later (stored n) t h = h
  Gated-later handed_over t h = h
  Gated-later (state_set n good) t h = h.1
  Gated-later (primary_set n) t h = h.1
  Gated-later (saved n st w) t h = h.1
  Gated-later (opened b) t h = h.1
  Gated-later (mounted b m) t h = h.1
  Gated-later (hook_passed m) t h = h.1
  Gated-later unmounted t h = h.1

  pub Free-later : (e : Event) (t : List Event) → Free t → Free (e ∷ t)
  Free-later e t h = (Permit-later e t h.0, Gated-later e t h)

-- The checks do not read the transaction.
pub Gated-transaction :
    (config : SystemConfig) (args : InstallArgs) (x : Option Text) (t : List Event)
    → Gated config (record args { transaction = x }) t
    → Gated config args t
unfolding check_opened verify_compatible check_version_limits
Gated-transaction config args x [] h = h
Gated-transaction config args x (wrote n w ∷ t) h = (h.0, Gated-transaction config args x t h.1)
Gated-transaction config args x (stored n ∷ t) h = (h.0, Gated-transaction config args x t h.1)
Gated-transaction config args x (handed_over ∷ t) h = (h.0, Gated-transaction config args x t h.1)
Gated-transaction config args x (state_set n good ∷ t) h = Gated-transaction config args x t h
Gated-transaction config args x (primary_set n ∷ t) h = Gated-transaction config args x t h
Gated-transaction config args x (saved n st w ∷ t) h = Gated-transaction config args x t h
Gated-transaction config args x (opened b ∷ t) h = Gated-transaction config args x t h
Gated-transaction config args x (mounted b m ∷ t) h = Gated-transaction config args x t h
Gated-transaction config args x (hook_passed m ∷ t) h = Gated-transaction config args x t h
Gated-transaction config args x (unmounted ∷ t) h = Gated-transaction config args x t h
