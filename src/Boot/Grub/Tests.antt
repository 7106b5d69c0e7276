-- ===== src/Boot/Grub/Tests.antt =====
-- Runs of the GRUB backend on an environment held in memory.
use rauc.Prelude.{
  inl, inr, ℕ, ◌≡◌, refl, ap, ◌∙◌, Bool, true, false, Bool-cases, ◌&&◌, some, List, [], ◌∷◌, Text,
  All, codes, text_eq, ◌==◌, Free, strcmp0_eq, if◌then◌else◌, ok, Output, Check, arith,
}
use rauc.Samples.{boot_config, rootfs_b}
use rauc.Boot.Tools.{Tools, checked}
use rauc.Boot.Names.{find_by_bootname}
use rauc.Boot.Uboot.{order_primary, order_rest}
use rauc.Boot.Grub.{
  list_args, pair, order_key, ok_key, try_key, grub_env_set, grub_set_primary, grub_backend,
}
use rauc.Boot.Grub.Laws.{GrubLaws, IsVariable, lines, value_of, assigned, pairs}
use rauc.Boot.Grub.Contract.{IsNamed, grub_backend-IsBackend}

abbrev Env : Type 0
Env = List (Text × Text)

-- Whether a text has no byte `d`.
free_of : ℕ → Text → Bool
free_of d [] = true
free_of d (c ∷ s) = if c == d then false else free_of d s

free_of-Free : (d : ℕ) (s : Text) → free_of d s ≡ true → Free d s
unfolding free_of
free_of-Free d [] h = tt
free_of-Free d (c ∷ s) h = (ground arith, free_of-Free d s (ground arith))

Free-free_of : (d : ℕ) (s : Text) → Free d s → free_of d s ≡ true
unfolding free_of
Free-free_of d [] h = refl
Free-free_of d (c ∷ s) h = rw (h.0, Free-free_of d s h.1) refl

is_variable : Text × Text → Bool
is_variable (k, v) = free_of 61 k && (free_of 10 k && free_of 10 v)

-- The variables that can be printed.
visible : Env → Env
visible [] = []
visible (p ∷ e) = let rest = visible e in if is_variable p then p ∷ rest else rest

visible-IsVariable : (e : Env) → All IsVariable (visible e)
unfolding visible is_variable
visible-IsVariable [] = tt
visible-IsVariable ((k, v) ∷ e) = elim (Bool-cases (is_variable (k, v))) [
  | inl y ↦ rw y (
    (
      free_of-Free 61 k (ground arith),
      free_of-Free 10 k (ground arith),
      free_of-Free 10 v (ground arith),
    ),
    visible-IsVariable e,
  )
  | inr n ↦ rw n (visible-IsVariable e)
]

is_variable-lem : (k v : Text) → IsVariable (k, v) → is_variable (k, v) ≡ true
unfolding is_variable
is_variable-lem k v h =
    rw (Free-free_of 61 k h.0, Free-free_of 10 k h.1, Free-free_of 10 v h.2) refl

-- The name and the value at the first `=`.
unfoldable split_value : Text → Text × Text
split_value [] = ([], [])
split_value (c ∷ s) = let (k, v) = split_value s in if c == 61 then ([], s) else (c ∷ k, v)

split_value-pair : (k v : Text) → Free 61 k → split_value (pair k v) ≡ (k, v)
unfolding split_value
split_value-pair [] v h = refl
split_value-pair (c ∷ k) v h = rw (h.0, split_value-pair k v h.1) refl

puts : List Text → Env → Env
puts [] e = e
puts (x ∷ xs) e = puts xs (split_value x ∷ e)

puts-assigned :
    (ps : List (Text × Text)) (e : Env) (j : Text)
    → All IsVariable ps
    → value_of (visible (puts (pairs ps) e)) j ≡ assigned ps j (value_of (visible e) j)
unfolding puts assigned visible value_of
puts-assigned [] e j h = refl
puts-assigned ((k, v) ∷ ps) e j h =
    puts-assigned ps (split_value (pair k v) ∷ e) j h.1
    ∙ ap (assigned ps j) (rw (split_value-pair k v h.0.0, is_variable-lem k v h.0) refl)

abbrev query_env : List Text → Env → Output
query_env (c ∷ path ∷ l ∷ []) w = Output.exited 0 (lines (visible w))
query_env _ w = Output.not_started

abbrev update_env : List Text → Env → Check × Env
update_env (c ∷ path ∷ s ∷ ps) w = (Check.success, puts ps w)
update_env _ w = (Check.not_started, w)

abbrev memory : Tools
memory = record { World = Env; query = query_env; update = update_env }

memory_laws : GrubLaws memory boot_config
unfolding list_args
memory_laws = record {
  view = visible;
  variables = visible-IsVariable;
  list = λ w. refl;
  set = λ w path j ps e h d. puts-assigned ps w j h;
}

-- A is first on the order and good.
abbrev env : Env
env =
    (order_key, codes "A B")
    ∷ (ok_key (some (codes "A")), codes "1")
    ∷ (try_key (some (codes "A")), codes "0")
    ∷ []

is_named : IsNamed boot_config.slots rootfs_b
unfolding find_by_bootname strcmp0_eq text_eq order_primary order_rest
is_named = record {
  name = codes "B";
  named = refl;
  nonempty = λ e. ground arith;
  graphic = (refl, tt);
  no_sign = (refl, tt);
  first = refl;
  order = (refl, (refl, (refl, tt)));
}

grub_backend-IsBackend_example :
    (grub_backend memory boot_config).get_primary
      ((grub_backend memory boot_config).set_primary rootfs_b env).1
    ≡ ok rootfs_b
unfolding grub_set_primary grub_env_set checked
grub_backend-IsBackend_example =
    (grub_backend-IsBackend memory boot_config memory_laws).primary_read rootfs_b env is_named refl
