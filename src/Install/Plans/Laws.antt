-- ===== src/Install/Plans/Laws.antt =====
-- What a successful `r_install_make_plans` guarantees.
use mathlib.Core.Option.{some-injective}
use mathlib.Core.Path.{subst}
use rauc.Prelude.{
  ◌≡◌, ◌≢◌, sym, ◌∙◌, ap, ◌⊎◌, inl, inr, true, false, Bool-cases, Option-cases, Option, none, some,
  List, [], ◌∷◌, ◌++◌, Text, text_eq, text_eq_iff, strcmp0_eq, All, All-append, arith, Result, ok,
  Result-cases, ok_injective, >>=-eq-ok, >>-eq-ok,
}
use rauc.Slot.{Slot}
use rauc.Manifest.{Image, Manifest, Handler, get_update_handler}
use rauc.Install.Select.{lookup_target}
use rauc.Install.Plans.{
  Plan, Repo, to_slot, to_repo, match_image, plan_class, plan_classes, plan_artifacts, make_plans,
  nonempty_plans, get_all_manifest_slot_classes,
}

-- A plan of one of the two kinds that the function makes.
abbrev pub Targets : List (Text × Slot) → (Text → Option Repo) → Plan → Type 0
Targets group repos p = elim p.target [
  | to_slot s h ↦
      (lookup_target group p.image.slotclass ≡ some s)
      × (s.readonly ≡ false)
      × (get_update_handler p.image s ≡ ok h)
  | to_repo r ↦ (p.image.artifact ≢ none) × (repos p.image.slotclass ≡ some r)
]

plan_class_cases :
    (variant : Option Text) (group : List (Text × Slot)) (images : List Image) (c : Text) (p : Plan)
    → plan_class variant group images c ≡ ok p
    → (i : Image) × (s : Slot) × (h : Handler) × (lookup_target group i.slotclass ≡ some s)
      × (s.readonly ≡ false)
      × (get_update_handler i s ≡ ok h)
      × (record { image = i; target = to_slot s h } ≡ p)
unfolding plan_class
plan_class_cases variant group images c p e =
    elim (Option-cases (match_image variant c none images)) [
      | inl m ↦ absurd (ground arith)
      | inr (i, m) ↦ elim (Option-cases (lookup_target group i.slotclass)) [
        | inl l ↦ absurd (ground arith)
        | inr (s, l) ↦ elim (Bool-cases s.readonly) [
          | inl r ↦ absurd (ground arith)
          | inr w ↦ elim (Result-cases (get_update_handler i s)) [
            | inl (h, q) ↦ (i, s, h, l, w, q, ground arith)
            | inr (x, q) ↦ absurd (ground arith)
          ]
        ]
      ]
    ]

nonempty_plans-ok :
    (qs : List Plan) {ps : List Plan} → nonempty_plans qs ≡ ok ps → (qs ≡ ps) × (ps ≢ [])
nonempty_plans-ok [] e = cc
nonempty_plans-ok (q ∷ qs) e = (ok_injective e, λ n. cc (e, n))

module _ (group : List (Text × Slot)) (repos : Text → Option Repo) where
  plan_class-Targets :
      (variant : Option Text) (images : List Image) (c : Text) (p : Plan)
      → plan_class variant group images c ≡ ok p
      → Targets group repos p
  plan_class-Targets variant images c p e =
      let (i, s, h, l, w, q, same) = plan_class_cases variant group images c p e in
      subst (Targets group repos) same (l, w, q)

  plan_classes-Targets :
      (variant : Option Text) (images : List Image) (cs : List Text) (ps : List Plan)
      → plan_classes variant group images cs ≡ ok ps
      → All (Targets group repos) ps
  unfolding plan_classes
  plan_classes-Targets variant images [] ps e =
      subst (All (Targets group repos)) (ok_injective e) tt
  plan_classes-Targets variant images (c ∷ cs) ps e =
      let (p, e1, k1) = >>=-eq-ok (plan_class variant group images c) _ e in
      let (qs, e2, k2) = >>=-eq-ok (plan_classes variant group images cs) _ k1 in
      subst (All (Targets group repos)) (ok_injective k2)
        (plan_class-Targets variant images c p e1, plan_classes-Targets variant images cs qs e2)

  plan_artifacts-Targets :
      (is : List Image) (ps : List Plan)
      → plan_artifacts repos is ≡ ok ps
      → All (Targets group repos) ps
  unfolding plan_artifacts
  plan_artifacts-Targets [] ps e = subst (All (Targets group repos)) (ok_injective e) tt
  plan_artifacts-Targets (i ∷ is) ps e = elim (Option-cases i.artifact) [
    | inl a ↦ plan_artifacts-Targets is ps (ground arith)
    | inr (a, q) ↦ elim (Option-cases (repos i.slotclass)) [
      | inl r ↦ absurd (ground arith)
      | inr (r, l) ↦ elim (Result-cases (plan_artifacts repos is)) [
        | inl (qs, k) ↦
            subst (All (Targets group repos))
              (let same : record { image = i; target = to_repo r } ∷ qs ≡ ps = ground arith in same)
              (((λ n. cc (q, n)), l), plan_artifacts-Targets is qs k)
        | inr (x, k) ↦ absurd (ground arith)
      ]
    ]
  ]

  -- Every plan of a successful `r_install_make_plans` has a target that the configuration allows:
  -- the slot of the target group for the image's class, which is not readonly and for whose type
  -- there is a handler, or, for an artifact image, the repository of that name.
  pub make_plans-Targets :
      (variant : Option Text) (artifacts : Result (Unit {0})) (m : Manifest) (ps : List Plan)
      → make_plans variant group repos artifacts m ≡ ok ps
      → All (Targets group repos) ps × (ps ≢ [])
  unfolding make_plans
  make_plans-Targets variant artifacts m ps e =
      let (a, e1, k1) =
        >>=-eq-ok (plan_classes variant group m.images (get_all_manifest_slot_classes m)) _ e in
      let (e2, k2) = >>-eq-ok artifacts _ k1 in
      let (b, e3, k3) = >>=-eq-ok (plan_artifacts repos m.images) _ k2 in
      let (same, some_plan) = nonempty_plans-ok (a ++ b) k3 in
      (
        subst (All (Targets group repos)) same (
            All-append (Targets group repos) a b (plan_classes-Targets variant m.images _ a e1)
              (plan_artifacts-Targets m.images b e3)),
        some_plan,
      )

-- Each image of the class that the match passed over, or kept, has another variant.
abbrev pub OtherVariant : Option Text → Text → Image → Type 0
OtherVariant variant cls i =
    i.slotclass ≡ cls → i.variant ≢ none → strcmp0_eq i.variant variant ≡ false

module _ (variant : Option Text) (cls : Text) (i : Image) (is : List Image) where
  match_skip :
      (found : Option Image)
      → text_eq i.slotclass cls ≡ false
      → match_image variant cls found (i ∷ is) ≡ match_image variant cls found is
  unfolding match_image
  match_skip found e = rw e

  match_exact :
      (found : Option Image) (v : Text)
      → text_eq i.slotclass cls ≡ true
      → i.variant ≡ some v
      → strcmp0_eq (some v) variant ≡ true
      → match_image variant cls found (i ∷ is) ≡ some i
  unfolding match_image
  match_exact found v e n q = ground arith

  match_other :
      (found : Option Image) (v : Text)
      → text_eq i.slotclass cls ≡ true
      → i.variant ≡ some v
      → strcmp0_eq (some v) variant ≡ false
      → match_image variant cls found (i ∷ is) ≡ match_image variant cls found is
  unfolding match_image
  match_other found v e n q = ground arith

  match_default :
      (found : Option Image)
      → text_eq i.slotclass cls ≡ true
      → i.variant ≡ none
      → match_image variant cls found (i ∷ is)
        ≡ match_image variant cls (elim found [ none ↦ some i | some f ↦ some f ]) is
  unfolding match_image
  match_default found e n = ground arith

-- The match so far is an image of the class without a variant.
abbrev Pending : Text → Option Image → Type 0
Pending cls none = Unit
Pending cls (some f) = (f.slotclass ≡ cls) × (f.variant ≡ none)

keep-Pending :
    (cls : Text) (found : Option Image) (i : Image)
    → Pending cls found
    → i.slotclass ≡ cls
    → i.variant ≡ none
    → Pending cls (elim found [ none ↦ some i | some f ↦ some f ])
keep-Pending cls none i p c n = (c, n)
keep-Pending cls (some f) i p c n = p

abbrev pub Matched : Option Text → Text → List Image → Image → Type 0
Matched variant cls is r =
    (r.slotclass ≡ cls)
    × ((strcmp0_eq r.variant variant ≡ true)
        ⊎ ((r.variant ≡ none) × All (OtherVariant variant cls) is))

extend :
    (variant : Option Text) (cls : Text) (i : Image) (is : List Image) (r : Image)
    → OtherVariant variant cls i
    → Matched variant cls is r
    → Matched variant cls (i ∷ is) r
extend variant cls i is r o (c, inl q) = (c, inl q)
extend variant cls i is r o (c, inr (n, all)) = (c, inr (n, (o, all)))

match_fits :
    (variant : Option Text) (cls : Text) (found : Option Image) (is : List Image) (r : Image)
    → Pending cls found
    → match_image variant cls found is ≡ some r
    → Matched variant cls is r
unfolding match_image
match_fits variant cls none [] r k h = cc
match_fits variant cls (some f) [] r k h =
    subst (Matched variant cls []) (some-injective f r h) (k.0, inr (k.1, tt))
match_fits variant cls found (i ∷ is) r k h = elim (Bool-cases (text_eq i.slotclass cls)) [
  | inr out ↦
      extend variant cls i is r (λ c w. absurd (ground (arith, text_eq_iff i.slotclass cls)))
        (match_fits variant cls found is r k (sym (match_skip variant cls i is found out) ∙ h))
  | inl fit ↦ elim (Option-cases i.variant) [
    | inl n ↦
        extend variant cls i is r (λ c w. absurd (w n))
          (match_fits variant cls (elim found [ none ↦ some i | some f ↦ some f ]) is r
            (keep-Pending cls found i k ((text_eq_iff i.slotclass cls).0 fit) n)
            (sym (match_default variant cls i is found fit n) ∙ h))
    | inr (v, n) ↦ elim (Bool-cases (strcmp0_eq (some v) variant)) [
      | inl q ↦
          subst (Matched variant cls (i ∷ is))
            (some-injective i r (sym (match_exact variant cls i is found v fit n q) ∙ h))
            ((text_eq_iff i.slotclass cls).0 fit, inl (ap (λ o. strcmp0_eq o variant) n ∙ q))
      | inr q ↦
          extend variant cls i is r (λ c w. ap (λ o. strcmp0_eq o variant) n ∙ q)
            (match_fits variant cls found is r k
              (sym (match_other variant cls i is found v fit n q) ∙ h))
    ]
  ]
]

-- The image that is chosen for a class belongs to it. It is one of the system's variant, or it has
-- no variant and no image of the class has the system's.
pub match_image-best :
    (variant : Option Text) (cls : Text) (is : List Image) (r : Image)
    → match_image variant cls none is ≡ some r
    → Matched variant cls is r
match_image-best variant cls is r h = match_fits variant cls none is r tt h
