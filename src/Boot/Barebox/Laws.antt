-- ===== src/Boot/Barebox/Laws.antt =====
-- The documented behaviour of `barebox-state`, and what barebox.c reads and writes through it.
use rauc.Prelude.{
  All, ℕ, zero, suc, ◌<◌, ◌^◌, ◌≡◌, ◌≢◌, refl, sym, ap, ◌∙◌, ◌⊎◌, inl, inr, Option, Option-cases,
  none, some, List, [], ◌∷◌, ◌++◌, Text, text_eq, strsplit, strsplit-eq, list_of, pieces,
  pieces-append_delim, strtoull, print_dec, if◌then◌else◌, ok, err, Output, Check, arith,
  skip_space, print_digits, spawn_exit, ok_injective,
}
use native.Mathlib.Nat.{mod-eq_of_lt}
use rauc.Prelude.Number.RoundTrip.{strtoull-print_dec, print_dec-IsGraphic}
use mathlib.Core.Path.{subst}
use rauc.Boot.Names.{graphic_line}
use rauc.Boot.Tools.{Tools, BootConfig, stdout_of, checked-ok}
use rauc.Boot.Barebox.{
  BareboxSlotState, prio_key, attempts_key, get_args, set_args, read_line, starts_number,
  barebox_state_get, barebox_state_set,
}

-- The value of a variable after the assignments of `barebox-state -s`.
unfoldable pub assigned : List (Text × ℕ) → Text → Option ℕ → Option ℕ
assigned [] j old = old
assigned ((k, v) ∷ ps) j old = assigned ps j (if text_eq k j then some v else old)

-- The tool keeps 32-bit variables: a query prints the values of its two variables, each on a
-- line, or exits with 1 where one of them is missing, and an update with 32-bit values that succeeds
-- makes its assignments in their order and touches no other variable.
pub record BareboxLaws (t : Tools) (config : BootConfig) : Type 0 where
  pub view : t.World → Text → Option ℕ
  pub small : (w : t.World) (k : Text) (n : ℕ) → view w k ≡ some n → n < 2 ^ 32
  pub get :
      (w : t.World) (b : Option Text) (p a : ℕ)
      → view w (prio_key b) ≡ some p
      → view w (attempts_key b) ≡ some a
      → t.query (get_args config b) w
        ≡ Output.exited 0 (print_dec p ++ 10 ∷ (print_dec a ++ 10 ∷ []))
  pub missing :
      (w : t.World) (b : Option Text)
      → (view w (prio_key b) ≡ none) ⊎ (view w (attempts_key b) ≡ none)
      → t.query (get_args config b) w ≡ Output.exited 1 []
  pub set :
      (w : t.World) (ps : List (Text × ℕ)) (j : Text)
      → All (λ (p : Text × ℕ). p.1 < 2 ^ 32) ps
      → (t.update (set_args config ps) w).0 ≡ Check.success
      → view (t.update (set_args config ps) w).1 j ≡ assigned ps j (view w j)

read_zero : (ls : List Text) → read_line (print_dec 0 ∷ ls) ≡ ok (0, ls)
unfolding read_line print_dec print_digits strtoull starts_number skip_space
read_zero ls = refl

read_line-print_dec :
    (n : ℕ) (ls : List Text) → n < 2 ^ 32 → read_line (print_dec n ∷ ls) ≡ ok (n, ls)
unfolding read_line
read_line-print_dec zero ls h = read_zero ls
read_line-print_dec (suc n) ls h = rw (strtoull-print_dec (suc n) h) (ground arith)

two_lines :
    (p a : ℕ)
    → strsplit 10 (print_dec p ++ 10 ∷ (print_dec a ++ 10 ∷ []))
      ≡ print_dec p ∷ print_dec a ∷ [] ∷ []
unfolding pieces
two_lines p a =
    strsplit-eq 10 _ (nonempty (print_dec p))
    ∙ ap list_of (
        pieces-append_delim 10 (print_dec p) _ (graphic_line (print_dec p) (print_dec-IsGraphic p))
        ∙ rw
            (pieces-append_delim 10 (print_dec a) []
              (graphic_line (print_dec a) (print_dec-IsGraphic a)))
            refl)
  where
    nonempty : (s : Text) → s ++ 10 ∷ (print_dec a ++ 10 ∷ []) ≢ []
    nonempty [] e = cc
    nonempty (c ∷ s) e = cc

module _ (t : Tools) (config : BootConfig) (barebox : BareboxLaws t config) where
  open t use {World, query, update}

  -- What `barebox_state_get` reads where both variables exist.
  pub barebox_state_get-view :
      (w : World) (b : Text) (p a : ℕ)
      → barebox.view w (prio_key (some b)) ≡ some p
      → barebox.view w (attempts_key (some b)) ≡ some a
      → barebox_state_get t config (some b) w ≡ ok (record { prio = p; attempts = a })
  unfolding barebox_state_get stdout_of
  barebox_state_get-view w b p a hp ha =
      let lp = barebox.small w (prio_key (some b)) p hp in
      let la = barebox.small w (attempts_key (some b)) a ha in
      rw
        (
          barebox.get w (some b) p a hp ha,
          two_lines p a,
          read_line-print_dec p (print_dec a ∷ [] ∷ []) lp,
          read_line-print_dec a ([] ∷ []) la,
          mod-eq_of_lt lp,
          mod-eq_of_lt la,
        )
        refl

  missing_fails :
      (w : World) (b : Text)
      → (barebox.view w (prio_key (some b)) ≡ none)
        ⊎ (barebox.view w (attempts_key (some b)) ≡ none)
      → (state : BareboxSlotState) → barebox_state_get t config (some b) w ≢ ok state
  unfolding barebox_state_get stdout_of
  missing_fails w b m state h =
      let failed : barebox_state_get t config (some b) w ≡ err (spawn_exit 1) =
        rw (barebox.missing w (some b) m) refl in
      cc

  -- Where `barebox_state_get` succeeds, both variables exist and it has their values.
  pub barebox_state_get-ok :
      (w : World) (b : Text) (state : BareboxSlotState)
      → barebox_state_get t config (some b) w ≡ ok state
      → (barebox.view w (prio_key (some b)) ≡ some state.prio)
        × (barebox.view w (attempts_key (some b)) ≡ some state.attempts)
  barebox_state_get-ok w b state h = elim (Option-cases (barebox.view w (prio_key (some b)))) [
    | inl e ↦ absurd (missing_fails w b (inl e) state h)
    | inr (p, ep) ↦ elim (Option-cases (barebox.view w (attempts_key (some b)))) [
      | inl e ↦ absurd (missing_fails w b (inr e) state h)
      | inr (a, ea) ↦
          subst
            (λ x.
              (barebox.view w (prio_key (some b)) ≡ some x.prio)
              × (barebox.view w (attempts_key (some b)) ≡ some x.attempts))
            (ok_injective (sym (barebox_state_get-view w b p a ep ea) ∙ h)) (ep, ea)
    ]
  ]

  -- What an update that succeeds leaves.
  pub barebox_state_set-view :
      (w : World) (ps : List (Text × ℕ)) (j : Text)
      → All (λ (p : Text × ℕ). p.1 < 2 ^ 32) ps
      → (barebox_state_set t config ps w).0 ≡ ok tt
      → barebox.view (barebox_state_set t config ps w).1 j ≡ assigned ps j (barebox.view w j)
  unfolding barebox_state_set
  barebox_state_set-view w ps j l h =
      barebox.set w ps j l (checked-ok (update (set_args config ps) w).0 h)
