-- ===== src/Machine/Hoare.antt =====
-- Rules for what a step guarantees on success and on failure.
use rauc.Prelude.{Bool, List, ◌∷◌, Result, ok, err, Error}
use rauc.Machine.{
  Run, Step, Event, succeeded, ◌>>=◌, ◌>>◌, call, act, act_ok, lift, with_error, ignore_error,
}

module _ {World : Type 0} where
  -- `Q` of the result and the state of a success, `E` of the state of a failure.
  abbrev pub Holds :
      {A : Type 0} → (A → Run World → Type 0) → (Run World → Type 0) → Result A × Run World → Type 0
  Holds Q E x = elim x.0 [ ok a ↦ Q a x.1 | err e ↦ E x.1 ]

  -- From a state in which `P` holds, the step ends as `Q` and `E` say.
  abbrev pub Hoare :
      {A : Type 0}
      → (Run World → Type 0)
      → Step World A
      → (A → Run World → Type 0)
      → (Run World → Type 0)
      → Type 0
  Hoare P m Q E = (r : Run World) → P r → Holds Q E (m r)

  pub Holds-both :
      {A : Type 0} (T : Run World → Type 0) (x : Result A × Run World) → T x.1 → Holds (λ a. T) T x
  Holds-both T (ok a, r) h = h
  Holds-both T (err e, r) h = h

  pub Holds-of_both :
      {A : Type 0} (T : Run World → Type 0) (x : Result A × Run World) → Holds (λ a. T) T x → T x.1
  Holds-of_both T (ok a, r) h = h
  Holds-of_both T (err e, r) h = h

  -- A failure that says more.
  pub Hoare-error :
      {A : Type 0} (P : Run World → Type 0) (Q : A → Run World → Type 0) (E F : Run World → Type 0)
      (m : Step World A)
      → ((r : Run World) → E r → F r)
      → Hoare P m Q E
      → Hoare P m Q F
  Hoare-error {A = A} P Q E F m g h r p = go (m r) (h r p)
    where
      go : (x : Result A × Run World) → Holds Q E x → Holds Q F x
      go (ok a, s) q = q
      go (err e, s) q = g s q

  module _ {A B : Type 0} (P : Run World → Type 0) (Q : A → Run World → Type 0)
      (R : B → Run World → Type 0) (E : Run World → Type 0) where
    pub >>=-Hoare :
        (m : Step World A) (f : A → Step World B)
        → Hoare P m Q E
        → ((a : A) → Hoare (Q a) (f a) R E)
        → Hoare P (m >>= f) R E
    >>=-Hoare m f hm hf r p = go (m r) (hm r p)
      where
        go :
            (x : Result A × Run World)
            → Holds Q E x
            → Holds R E (elim x.0 [ ok a ↦ f a x.1 | err e ↦ (err e, x.1) ])
        go (ok a, s) h = hf a s h
        go (err e, s) h = h

  module _ {B : Type 0} (P Q : Run World → Type 0) (R : B → Run World → Type 0)
      (E : Run World → Type 0) where
    pub >>-Hoare :
        (m : Step World (Unit {0})) (k : Step World B)
        → Hoare P m (λ u. Q) E
        → Hoare Q k R E
        → Hoare P (m >> k) R E
    >>-Hoare m k hm hk r p = go (m r) (hm r p)
      where
        go :
            (x : Result (Unit {0}) × Run World)
            → Holds (λ u. Q) E x
            → Holds R E (elim x.0 [ ok a ↦ k x.1 | err e ↦ (err e, x.1) ])
        go (ok a, s) h = hk s h
        go (err e, s) h = h

  -- A predicate of the trace.
  abbrev pub On : (List Event → Type 0) → Run World → Type 0
  On T r = T r.trace

  module _ (T : List Event → Type 0) where
    pub call-Hoare :
        {A : Type 0} (f : World → Result A × World) → Hoare (On T) (call f) (λ a. On T) (On T)
    call-Hoare f r p = Holds-both (On T) (call f r) p

    pub lift-Hoare : {A : Type 0} (x : Result A) → Hoare (On T) (lift x) (λ a. On T) (On T)
    lift-Hoare x r p = Holds-both (On T) (lift x r) p

    pub act-Hoare :
        {A : Type 0} (e : Bool → Event) (f : World → Result A × World) (S : List Event → Type 0)
        → ((b : Bool) (t : List Event) → S t → T (e b ∷ t))
        → Hoare (On S) (act e f) (λ a. On T) (On T)
    act-Hoare e f S h r p = Holds-both (On T) (act e f r) (h (succeeded (f r.world).0) r.trace p)

    -- On a failure the trace is the old one.
    pub act_ok-Hoare :
        {A : Type 0} (e : A → Event) (f : World → Result A × World) (S : List Event → Type 0)
        → ((a : A) (t : List Event) → S t → T (e a ∷ t))
        → Hoare (On S) (act_ok e f) (λ a. On T) (On S)
    act_ok-Hoare {A = A} e f S h r p = go (f r.world)
      where
        go :
            (y : Result A × World)
            → Holds
                (λ a. On T)
                (On S)
                (
                  y.0,
                  record r {
                    world = y.1;
                    trace = elim y.0 [ ok a ↦ e a ∷ r.trace | err z ↦ r.trace ];
                  },
                )
        go (ok a, w) = h a r.trace p
        go (err z, w) = p

    pub ignore_error-Hoare :
        (m : Step World (Unit {0})) (P : Run World → Type 0)
        → Hoare P m (λ a. On T) (On T)
        → Hoare P (ignore_error m) (λ a. On T) (On T)
    ignore_error-Hoare m P h r p = Holds-of_both (On T) (m r) (h r p)

  module _ {A : Type 0} (P : Run World → Type 0) (Q : A → Run World → Type 0)
      (E : Run World → Type 0) where
    pub with_error-Hoare :
        (x : Error) (m : Step World A) → Hoare P m Q E → Hoare P (with_error x m) Q E
    with_error-Hoare x m h r p = go (m r) (h r p)
      where
        go :
            (y : Result A × Run World)
            → Holds Q E y
            → Holds Q E (elim y.0 [ ok a ↦ ok a | err z ↦ err x ], y.1)
        go (ok a, s) q = q
        go (err e, s) q = q

    -- Two guarantees of one step.
    pub Hoare-and :
        (R : A → Run World → Type 0) (F : Run World → Type 0) (m : Step World A)
        → Hoare P m Q E
        → Hoare P m R F
        → Hoare P m (λ a r. Q a r × R a r) E
    Hoare-and R F m h k r p = go (m r) (h r p) (k r p)
      where
        go :
            (y : Result A × Run World)
            → Holds Q E y
            → Holds R F y
            → Holds (λ a r. Q a r × R a r) E y
        go (ok a, s) q z = (q, z)
        go (err e, s) q z = q
