-- ===== src/Install/Default/Laws.antt =====
-- Rules for the default handler and a property of the actions.
use rauc.Prelude.{
  ok_injective, sym, ◌≡◌, ◌⊎◌, refl, Bool, true, false, Bool-cases, some, List, [], ◌∷◌, Text,
  Result, ok, err, inl, inr, install_mark_bootable, install_mark_nonbootable,
}
use rauc.Slot.{Slot, SlotStatus}
use rauc.Manifest.{Image, Manifest}
use rauc.Machine.{
  Io, SystemConfig, Run, Event, wrote, saved, stored, primary_set, state_set, ◌>>◌, call, act_ok,
  with_error, lift,
}
use rauc.Machine.Hoare.{
  Hoare, Holds, On, Holds-of_both, Hoare-error, >>=-Hoare, >>-Hoare, act-Hoare, call-Hoare,
  lift-Hoare, act_ok-Hoare, with_error-Hoare,
}
use rauc.Mark.{
  activate, note_activation, mark_bad, mark_active, status_load, status_update, status_save,
}
use mathlib.Core.Path.{subst}
use rauc.Install.Plans.{
  get_boot_mark_slot, pre_install_checks, plan_classes, make_plans, get_all_manifest_slot_classes,
  Plan, Target, to_slot, to_repo,
}
use rauc.Install.Slots.{InstallArgs, prepare_slot}
use rauc.Install.Slots.Laws.{handle_slot-Hoare}
use rauc.Install.Default.{
  handle_plan, handle_plans, mark_target_bad, activate_target, install_plans, run_plans,
  default_handler, checks_step, make_plans_step,
}

module _ (io : Io) (config : SystemConfig) (manifest : Manifest) (args : InstallArgs)
    (T : List Event → Type 0)
    (saved_T : (n : Text) (st : SlotStatus) (w : Bool) (t : List Event)
      → T t
      → T (saved n st w ∷ t))
    (stored_T : (n : Text) (t : List Event) → T t → T (stored n ∷ t)) where
  open io use {World, artifact_install, artifacts_prune}

  module _ (Ready : Text → List Event → Type 0)
      (wrote_T : (n : Text) (w : Bool) (t : List Event) → Ready n t → T (wrote n w ∷ t))
      (prepare : (s : Slot)
        → Hoare
            (On T)
            (prepare_slot io config manifest args s)
            (λ u. On (Ready s.name))
            (On T)) where
    handle_plan-Hoare :
        (p : Plan) → Hoare (On T) (handle_plan io config manifest args p) (λ u. On T) (On T)
    unfolding handle_plan
    handle_plan-Hoare p = at p.image p.target
      where
        at :
            (i : Image) (g : Target)
            → Hoare
                (On T)
                (handle_plan io config manifest args (record { image = i; target = g }))
                (λ u. On T)
                (On T)
        at i (to_slot s h) =
            handle_slot-Hoare io config manifest args T saved_T Ready wrote_T prepare s i h
              manifest.hook_name
        at i (to_repo g) =
            act-Hoare T (λ w. stored g.name) (artifact_install manifest i g) T
              (λ w. stored_T g.name)

    pub handle_plans-Hoare :
        (ps : List Plan) → Hoare (On T) (handle_plans io config manifest args ps) (λ u. On T) (On T)
    unfolding handle_plans
    handle_plans-Hoare [] = λ r p. p
    handle_plans-Hoare (p ∷ ps) =
        >>-Hoare (On T) (On T) (λ u. On T) (On T) (handle_plan io config manifest args p)
          (handle_plans io config manifest args ps) (handle_plan-Hoare p) (handle_plans-Hoare ps)

  -- Marking a slot active, from `T` to `S`.
  pub mark_active-Hoare :
      (s : Slot) (S : List Event → Type 0)
      → ((n : Text) (st : SlotStatus) (w : Bool) (t : List Event) → S t → S (saved n st w ∷ t))
      → ((t : List Event) → T t → S (primary_set s.name ∷ t))
      → Hoare (On T) (mark_active io s) (λ u. On S) (On T)
  unfolding mark_active activate note_activation status_load status_update status_save
  mark_active-Hoare s S saved_S primary_S =
      >>=-Hoare (On T) (λ still. On T) (λ u. On S) (On T) (status_load io s)
        (λ still. activate io s) (λ r p. p)
        (λ still.
          >>-Hoare (On T) (On S) (λ u. On S) (On T)
            (with_error install_mark_bootable
              (act_ok (λ u. primary_set s.name) (io.boot_set_primary s)))
            (note_activation io s)
            (with_error-Hoare (On T) (λ u. On S) (On T) install_mark_bootable
              (act_ok (λ u. primary_set s.name) (io.boot_set_primary s))
              (act_ok-Hoare S (λ u. primary_set s.name) (io.boot_set_primary s) T (λ u. primary_S)))
            (λ r p. saved_S s.name _ _ r.trace p))

  -- Marking the target bad, from `S` to `T`.
  pub mark_bad-Hoare :
      (s : Slot) (S : List Event → Type 0)
      → ((t : List Event) → S t → T (state_set s.name false ∷ t))
      → Hoare (On S) (mark_target_bad io config manifest args (some s)) (λ u. On T) (On S)
  unfolding mark_target_bad mark_bad
  mark_bad-Hoare s S bad_T =
      with_error-Hoare (On S) (λ u. On T) (On S) install_mark_nonbootable
        (with_error install_mark_bootable
          (act_ok (λ u. state_set s.name false) (io.boot_set_state s false)))
        (with_error-Hoare (On S) (λ u. On T) (On S) install_mark_bootable
          (act_ok (λ u. state_set s.name false) (io.boot_set_state s false))
          (act_ok-Hoare T (λ u. state_set s.name false) (io.boot_set_state s false) S (λ u. bad_T)))

-- Making the plans is no action.
pub make_plans_step-trace :
    (io : Io) (config : SystemConfig) (manifest : Manifest) (args : InstallArgs)
    (group : List (Text × Slot)) (r : Run io.World)
    → (make_plans_step io config manifest args group r).1.trace ≡ r.trace
unfolding make_plans_step
make_plans_step-trace io config manifest args group r =
    Holds-of_both (On same) (make_plans_step io config manifest args group r) (
      >>=-Hoare (On same) (λ a. On same) (λ a. On same) (On same)
        (lift (
          plan_classes config.system_variant group manifest.images
            (get_all_manifest_slot_classes manifest)))
        (λ slot_plans.
          call io.artifacts_init
          >> lift (make_plans config.system_variant group config.artifact_repos (ok tt) manifest))
        (lift-Hoare same _)
        (λ a.
          >>-Hoare (On same) (On same) (λ b. On same) (On same) (call io.artifacts_init)
            (lift (make_plans config.system_variant group config.artifact_repos (ok tt) manifest))
            (call-Hoare same io.artifacts_init) (lift-Hoare same _))
        r refl)
  where
    same : List Event → Type 0
    same t = t ≡ r.trace

module _ (io : Io) (config : SystemConfig) (manifest : Manifest) (args : InstallArgs)
    (T S U : List Event → Type 0)
    (saved_T : (n : Text) (st : SlotStatus) (w : Bool) (t : List Event)
      → T t
      → T (saved n st w ∷ t))
    (stored_T : (n : Text) (t : List Event) → T t → T (stored n ∷ t))
    (Ready : Text → List Event → Type 0)
    (wrote_T : (n : Text) (w : Bool) (t : List Event) → Ready n t → T (wrote n w ∷ t))
    (prepare : (s : Slot)
      → Hoare (On T) (prepare_slot io config manifest args s) (λ u. On (Ready s.name)) (On T))
    (saved_U : (n : Text) (st : SlotStatus) (w : Bool) (t : List Event)
      → U t
      → U (saved n st w ∷ t))
    (b : Slot) (bad_T : (t : List Event) → S t → T (state_set b.name false ∷ t))
    (primary_U : config.activate_installed ≡ true
      → (t : List Event) → T t
      → U (primary_set b.name ∷ t))
    (left_U : config.activate_installed ≡ false → (t : List Event) → T t → U t) where
  open io use {World, artifacts_prune}

  activate_target-Hoare :
      Hoare (On T) (activate_target io config manifest args (some b)) (λ u. On U) (On T)
  unfolding activate_target
  activate_target-Hoare r p = elim (Bool-cases config.activate_installed) [
    | inl q ↦
        rw q (
          mark_active-Hoare io config manifest args T saved_T stored_T b U saved_U (primary_U q) r
            p)
    | inr q ↦ rw q (left_U q r.trace p)
  ]

  after_bad-Hoare :
      (ps : List Plan)
      → Hoare
          (On T)
          (handle_plans io config manifest args ps
            >> (call artifacts_prune >> activate_target io config manifest args (some b)))
          (λ u. On U)
          (On T)
  after_bad-Hoare ps =
      >>-Hoare (On T) (On T) (λ u. On U) (On T) (handle_plans io config manifest args ps)
        (call artifacts_prune >> activate_target io config manifest args (some b))
        (handle_plans-Hoare io config manifest args T saved_T stored_T Ready wrote_T prepare ps)
        (>>-Hoare (On T) (On T) (λ u. On U) (On T) (call artifacts_prune)
          (activate_target io config manifest args (some b)) (call-Hoare T artifacts_prune)
          activate_target-Hoare)

  -- From `S`, marking the target bad makes `T`, which the plans keep, and activating makes `U`.
  pub install_plans-Hoare :
      (ps : List Plan)
      → Hoare
          (On S)
          (install_plans io config manifest args ps (some b))
          (λ u. On U)
          (On (λ t. S t ⊎ T t))
  unfolding install_plans
  install_plans-Hoare ps =
      >>-Hoare (On S) (On T) (λ u. On U) (On (λ t. S t ⊎ T t))
        (mark_target_bad io config manifest args (some b))
        (handle_plans io config manifest args ps
          >> (call artifacts_prune >> activate_target io config manifest args (some b)))
        (Hoare-error (On S) (λ u. On T) (On S) (On (λ t. S t ⊎ T t))
          (mark_target_bad io config manifest args (some b)) (λ r h. inl h)
          (mark_bad-Hoare io config manifest args T saved_T stored_T b S bad_T))
        (Hoare-error (On T) (λ u. On U) (On T) (On (λ t. S t ⊎ T t))
          (handle_plans io config manifest args ps
            >> (call artifacts_prune >> activate_target io config manifest args (some b)))
          (λ r h. inr h) (after_bad-Hoare ps))

  run_plans-marked :
      (ps : List Plan)
      → get_boot_mark_slot ps ≡ some (some b)
      → run_plans io config manifest args ps ≡ (
          checks_step io config manifest args ps
          >> install_plans io config manifest args ps (some b))
  unfolding run_plans
  run_plans-marked ps e = rw (run_plans, e) refl

  run_plans-Hoare :
      (ps : List Plan)
      → get_boot_mark_slot ps ≡ some (some b)
      → Hoare (On S) (run_plans io config manifest args ps) (λ u. On U) (On (λ t. S t ⊎ T t))
  unfolding checks_step
  run_plans-Hoare ps e r p =
      subst (λ m. Holds (λ u. On U) (On (λ t. S t ⊎ T t)) (m r)) (sym (run_plans-marked ps e))
        (>>-Hoare (On S) (On S) (λ u. On U) (On (λ t. S t ⊎ T t))
          (checks_step io config manifest args ps)
          (install_plans io config manifest args ps (some b))
          (λ s q. Holds_both_sides s q (pre_install_checks (io.exists s.world) ps))
          (install_plans-Hoare ps) r p)
    where
      Holds_both_sides :
          (s : Run World)
          → S s.trace
          → (x : Result (Unit {0})) → Holds (λ u. On S) (On (λ t. S t ⊎ T t)) (x, s)
      Holds_both_sides s q (ok u) = q
      Holds_both_sides s q (err y) = inl q

  -- The default handler, where the plans that it makes have the root slot `b` to mark.
  pub default_handler-Hoare :
      (group : List (Text × Slot)) (ps : List Plan) (r : Run World)
      → (make_plans_step io config manifest args group r).0 ≡ ok ps
      → get_boot_mark_slot ps ≡ some (some b)
      → S r.trace
      → Holds (λ u. On U) (On (λ t. S t ⊎ T t)) (default_handler io config manifest args group r)
  unfolding default_handler
  default_handler-Hoare group ps r e m p =
      >>=-Hoare (λ s. s ≡ r) (λ a s. (a ≡ ps) × S s.trace) (λ u. On U) (On (λ t. S t ⊎ T t))
        (make_plans_step io config manifest args group) (run_plans io config manifest args)
        (λ s q.
          subst
            (λ s.
              Holds (λ a s. (a ≡ ps) × S s.trace) (On (λ t. S t ⊎ T t))
                (make_plans_step io config manifest args group s))
            (sym q)
            (made (make_plans_step io config manifest args group r) e
              (subst S (sym (make_plans_step-trace io config manifest args group r)) p)))
        (λ a s h.
          subst
            (λ a. Holds (λ u. On U) (On (λ t. S t ⊎ T t)) (run_plans io config manifest args a s))
            (sym h.0) (run_plans-Hoare ps m s h.1))
        r refl
    where
      made :
          (x : Result (List Plan) × Run World)
          → x.0 ≡ ok ps
          → S x.1.trace
          → Holds (λ a s. (a ≡ ps) × S s.trace) (On (λ t. S t ⊎ T t)) x
      made (ok a, s) q h = (ok_injective q, h)
      made (err y, s) q h = cc
