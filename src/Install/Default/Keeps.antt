-- ===== src/Install/Default/Keeps.antt =====
-- The default handler keeps a property of the actions that every action keeps.
use mathlib.Core.Path.{subst}
use rauc.Prelude.{sym, Bool-cases, inl, inr, Option-cases, Option, none, some, List, ◌∷◌, Text}
use rauc.Slot.{Slot}
use rauc.Manifest.{Manifest}
use rauc.Machine.{Io, SystemConfig, Event, ◌>>◌, call}
use rauc.Machine.Hoare.{Hoare, On, Holds-both, >>=-Hoare, >>-Hoare, call-Hoare}
use rauc.Install.Plans.{Plan, get_boot_mark_slot}
use rauc.Install.Slots.{InstallArgs}
use rauc.Install.Slots.Laws.{prepare-Hoare}
use rauc.Install.Default.{
  handle_plans, mark_target_bad, activate_target, install_plans, run_plans, default_handler,
  checks_step, make_plans_step,
}
use rauc.Install.Default.Laws.{
  handle_plans-Hoare, mark_active-Hoare, mark_bad-Hoare, make_plans_step-trace,
}

module _ (io : Io) (config : SystemConfig) (manifest : Manifest) (args : InstallArgs)
    (T : List Event → Type 0) (keep : (e : Event) (t : List Event) → T t → T (e ∷ t)) where
  open io use {World, artifacts_prune}

  mark_target_bad-keeps :
      (b : Option Slot)
      → Hoare (On T) (mark_target_bad io config manifest args b) (λ u. On T) (On T)
  unfolding mark_target_bad
  mark_target_bad-keeps none = λ r p. p
  mark_target_bad-keeps (some b) =
      mark_bad-Hoare io config manifest args T (λ n st w. keep _) (λ n. keep _) b T (keep _)

  activate_target-keeps :
      (b : Option Slot)
      → Hoare (On T) (activate_target io config manifest args b) (λ u. On T) (On T)
  unfolding activate_target
  activate_target-keeps none = λ r p. p
  activate_target-keeps (some b) = λ r p. elim (Bool-cases config.activate_installed) [
    | inl q ↦ rw q (
        mark_active-Hoare io config manifest args T (λ n st w. keep _) (λ n. keep _) b T
          (λ n st w. keep _) (keep _) r p)
    | inr q ↦ rw q p
  ]

  install_plans-keeps :
      (ps : List Plan) (b : Option Slot)
      → Hoare (On T) (install_plans io config manifest args ps b) (λ u. On T) (On T)
  unfolding install_plans
  install_plans-keeps ps b =
      let activate = activate_target io config manifest args b in
      let plans = handle_plans io config manifest args ps in
      >>-Hoare (On T) (On T) (λ u. On T) (On T) (mark_target_bad io config manifest args b)
        (plans >> (call artifacts_prune >> activate)) (mark_target_bad-keeps b)
        (>>-Hoare (On T) (On T) (λ u. On T) (On T) plans (call artifacts_prune >> activate)
          (handle_plans-Hoare io config manifest args T (λ n st w. keep _) (λ n. keep _) (λ n. T)
            (λ n w. keep _)
            (λ s.
              prepare-Hoare io config manifest args T T T s (λ e t q. q) (λ e old. keep _)
                (λ e old. keep _))
            ps)
          (>>-Hoare (On T) (On T) (λ u. On T) (On T) (call artifacts_prune) activate
            (call-Hoare T artifacts_prune) (activate_target-keeps b)))

  run_plans-keeps :
      (ps : List Plan) → Hoare (On T) (run_plans io config manifest args ps) (λ u. On T) (On T)
  unfolding run_plans checks_step
  run_plans-keeps ps = λ r p. elim (Option-cases (get_boot_mark_slot ps)) [
    | inl e ↦ rw (run_plans, e) p
    | inr (b, e) ↦
        rw (run_plans, e)
          (>>-Hoare (On T) (On T) (λ u. On T) (On T) (checks_step io config manifest args ps)
            (install_plans io config manifest args ps b)
            (λ s q. Holds-both (On T) (checks_step io config manifest args ps s) q)
            (install_plans-keeps ps b) r p)
  ]

  pub default_handler-keeps :
      (group : List (Text × Slot))
      → Hoare (On T) (default_handler io config manifest args group) (λ u. On T) (On T)
  unfolding default_handler
  default_handler-keeps group =
      >>=-Hoare (On T) (λ ps. On T) (λ u. On T) (On T)
        (make_plans_step io config manifest args group) (run_plans io config manifest args)
        (λ r p.
          Holds-both (On T) (make_plans_step io config manifest args group r)
            (subst T (sym (make_plans_step-trace io config manifest args group r)) p))
        run_plans-keeps
