-- ===== src/Boot/Uboot/Laws.antt =====
-- The documented behaviour of `fw_printenv` and `fw_setenv`, and what uboot.c reads and writes
-- through them.
use rauc.Prelude.{
  Option-cases, ℕ, suc, ◌<◌, ◌^◌, ◌≡◌, ◌≢◌, refl, sym, ap, ◌∙◌, inl, inr, false, Option, none, some,
  [], ◌∷◌, ◌++◌, Text, codes, text_eq, text_eq_refl, text_ne, drop, length, append-nil, get_or,
  length-append, chomp, chomp-append, IsGraphic, All, strtoull, print_hex, if◌then◌else◌, Result,
  ok, err, Output, Check, arith,
}
use rauc.Boot.Tools.{checked-ok, Tools, stdout_of, print_string}
use rauc.Boot.Uboot.{env_get, env_set, and_then, left_key, boot_order}
use rauc.Prelude.Number.RoundTrip.{strtoull-print_hex}

-- `fw_setenv KEY` with an empty value deletes the variable.
abbrev pub stored : Text → Option Text
stored [] = none
stored (c ∷ v) = some (c ∷ v)

-- The tools keep an environment: `fw_printenv KEY` prints `KEY=value` and a newline, or exits
-- with 1 where the variable is not defined, and a `fw_setenv` that succeeds sets its variable and
-- no other.
pub record FwLaws (t : Tools) : Type 0 where
  pub view : t.World → Text → Option Text
  pub printenv :
      (w : t.World) (k v : Text)
      → view w k ≡ some v
      → t.query (codes "fw_printenv" ∷ k ∷ []) w ≡ Output.exited 0 (k ++ (61 ∷ (v ++ 10 ∷ [])))
  pub printenv_none :
      (w : t.World) (k : Text)
      → view w k ≡ none
      → t.query (codes "fw_printenv" ∷ k ∷ []) w ≡ Output.exited 1 []
  pub setenv :
      (w : t.World) (k v j : Text)
      → (t.update (codes "fw_setenv" ∷ k ∷ v ∷ []) w).0 ≡ Check.success
      → view (t.update (codes "fw_setenv" ∷ k ∷ v ∷ []) w).1 j
        ≡ (if text_eq k j then stored v else view w j)

drop_key : (k r : Text) → drop (suc (length k)) (k ++ (61 ∷ r)) ≡ r
drop_key [] r = refl
drop_key (c ∷ k) r = drop_key k r

-- The counter of a slot and the boot order are two variables.
not_order : (b : Text) → b ++ codes "_LEFT" ≢ codes "ORDER"
not_order [] e = absurd (omega (arith, ap (λ s. get_or s 0 0) e))
not_order (c ∷ b) e = absurd (omega (arith, ap length e, length-append b (codes "_LEFT")))

pub left_key-ne-boot_order : (b : Option Text) → text_eq (left_key b) boot_order ≡ false
unfolding left_key
left_key-ne-boot_order b = text_ne _ _ (λ e. not_order (print_string b) (ap (drop 5) e))

pub boot_order-ne-left_key : (b : Option Text) → text_eq boot_order (left_key b) ≡ false
unfolding left_key
boot_order-ne-left_key b = text_ne _ _ (λ e. not_order (print_string b) (ap (drop 5) (sym e)))

chomp_newline : chomp (10 ∷ []) ≡ []
unfolding chomp
chomp_newline = refl

pub stored-some : (v : Text) → v ≢ [] → stored v ≡ some v
stored-some [] n = absurd (n refl)
stored-some (c ∷ v) n = refl

module _ (t : Tools) (fw : FwLaws t) where
  open t use {World}

  -- A value is read without the white space at its end.
  pub env_get_view :
      (w : World) (k v : Text) → fw.view w k ≡ some v → env_get t k w ≡ ok (chomp (v ++ 10 ∷ []))
  unfolding env_get stdout_of
  env_get_view w k v h = rw (fw.printenv w k v h, drop_key k (v ++ 10 ∷ []))

  pub env_get_graphic :
      (w : World) (k v : Text) → All IsGraphic v → fw.view w k ≡ some v → env_get t k w ≡ ok v
  env_get_graphic w k v g h =
      env_get_view w k v h
      ∙ ap ok (rw (chomp-append v (10 ∷ []) g) (rw chomp_newline (append-nil v)))

  -- What is read depends on the variable alone.
  pub env_get_same :
      (w w' : World) (k : Text) → fw.view w k ≡ fw.view w' k → env_get t k w ≡ env_get t k w'
  unfolding env_get stdout_of
  env_get_same w w' k h = elim (Option-cases (fw.view w' k)) [
    | inl e ↦ rw (fw.printenv_none w k (h ∙ e), fw.printenv_none w' k e)
    | inr (v, e) ↦ rw (fw.printenv w k v (h ∙ e), fw.printenv w' k v e)
  ]

  pub view-env_set :
      (w : World) (k v j : Text)
      → (env_set t k v w).0 ≡ ok tt
      → fw.view (env_set t k v w).1 j ≡ (if text_eq k j then stored v else fw.view w j)
  unfolding env_set
  view-env_set w k v j h = fw.setenv w k v j (checked-ok _ h)

  pub view-set_self :
      (w : World) (k v : Text)
      → (env_set t k v w).0 ≡ ok tt
      → v ≢ []
      → fw.view (env_set t k v w).1 k ≡ some v
  view-set_self w k v h n = rw (view-env_set w k v k h, text_eq_refl k) (stored-some v n)

  pub view-set_ne :
      (w : World) (k v j : Text)
      → (env_set t k v w).0 ≡ ok tt
      → text_eq k j ≡ false
      → fw.view (env_set t k v w).1 j ≡ fw.view w j
  view-set_ne w k v j h n = rw (view-env_set w k v j h, n)

  pub and_then-ok :
      (m : Result (Unit {0}) × World) (k : World → Result (Unit {0}) × World)
      → (and_then t m k).0 ≡ ok tt
      → (m.0 ≡ ok tt) × ((k m.1).0 ≡ ok tt) × (and_then t m k ≡ k m.1)
  and_then-ok (ok tt, w) k h = (refl, h, refl)
  and_then-ok (err e, w) k h = cc

pub print_hex-ne-nil : (n : ℕ) → 0 < n → n < 2 ^ 32 → print_hex n ≢ []
unfolding strtoull
print_hex-ne-nil n pos small e =
    let z : 0 ≡ n = ap (strtoull 16) (sym e) ∙ strtoull-print_hex n small in omega arith
