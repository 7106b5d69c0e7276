-- ===== src/Boot/Grub/Laws.antt =====
-- The documented behaviour of `grub-editenv`, and what grub.c reads and writes through it.
use rauc.Prelude.{
  ◌≡◌, ◌≢◌, refl, ap, ◌∙◌, inl, inr, false, ◌&&◌, Bool-cases, Option, none, some, List, [], ◌∷◌,
  ◌++◌, map, Text, codes, text_eq, text_eq_iff, drop, length, chomp, strsplit, strsplit-eq, list_of,
  pieces, pieces-append_delim, Free, All, All-append, has_prefix, ◌==◌, if◌then◌else◌, Result, ok,
  err, bootchooser_parse_failed, aborted, Output, Check, arith,
}
use rauc.Boot.Tools.{checked-ok, Tools, BootConfig, stdout_of, checked}
use rauc.Boot.Grub.{list_args, find_variable, pair, grub_env_get, grub_env_set}

-- The lines that `grub-editenv list` prints.
unfoldable pub lines : List (Text × Text) → Text
lines [] = []
lines ((k, v) ∷ e) = pair k v ++ 10 ∷ lines e

-- The first value of a variable.
unfoldable pub value_of : List (Text × Text) → Text → Option Text
value_of [] j = none
value_of ((k, v) ∷ e) j = if text_eq k j then some v else value_of e j

-- A variable that can be printed and read: no newline, and no `=` in the name.
abbrev pub IsVariable : Text × Text → Type 0
IsVariable (k, v) = Free 61 k × Free 10 k × Free 10 v

-- The value of a variable after the assignments of `grub-editenv set`.
unfoldable pub assigned : List (Text × Text) → Text → Option Text → Option Text
assigned [] j old = old
assigned ((k, v) ∷ ps) j old = assigned ps j (if text_eq k j then some v else old)

abbrev pub pairs : List (Text × Text) → List Text
pairs = map (λ (p : Text × Text). pair p.0 p.1)

-- The tool keeps an environment: `list` prints its variables line by line, and a `set` that
-- succeeds makes the assignments in their order and touches no other variable.
pub record GrubLaws (t : Tools) (config : BootConfig) : Type 0 where
  pub view : t.World → List (Text × Text)
  pub variables : (w : t.World) → All IsVariable (view w)
  pub list : (w : t.World) → t.query (list_args config) w ≡ Output.exited 0 (lines (view w))
  pub set :
      (w : t.World) (path j : Text) (ps : List (Text × Text))
      → config.grubenv_path ≡ some path
      → All IsVariable ps
      → (t.update (codes "grub-editenv" ∷ path ∷ codes "set" ∷ pairs ps) w).0 ≡ Check.success
      → value_of (view (t.update (codes "grub-editenv" ∷ path ∷ codes "set" ∷ pairs ps) w).1) j
        ≡ assigned ps j (value_of (view w) j)

line_prefix :
    (k key v : Text)
    → Free 61 k
    → Free 61 key
    → has_prefix (pair k v) (key ++ 61 ∷ []) ≡ text_eq k key
unfolding has_prefix text_eq
line_prefix [] [] v h l = refl
line_prefix [] (d ∷ key) v h l = ground arith
line_prefix (c ∷ k) [] v h l = ground arith
line_prefix (c ∷ k) (d ∷ key) v h l = ap (λ b. c == d && b) (line_prefix k key v h.1 l.1)

drop_prefix : (key v : Text) → drop (length (key ++ 61 ∷ [])) (pair key v) ≡ v
drop_prefix [] v = refl
drop_prefix (c ∷ key) v = drop_prefix key v

line_Free : (k v : Text) → Free 10 k → Free 10 v → Free 10 (pair k v)
line_Free k v h l = All-append (λ c. (c == 10) ≡ false) k (61 ∷ v) h (refl, l)

-- What is read of a value.
abbrev pub read_value : Option Text → Result Text
read_value none = err bootchooser_parse_failed
read_value (some v) = ok (chomp v)

no_prefix : (key : Text) → has_prefix [] (key ++ 61 ∷ []) ≡ false
unfolding has_prefix
no_prefix [] = refl
no_prefix (c ∷ key) = refl

find_variable-lines :
    (key : Text) (e : List (Text × Text))
    → Free 61 key
    → All IsVariable e
    → find_variable (key ++ 61 ∷ []) (list_of (pieces 10 (lines e))) ≡ read_value (value_of e key)
unfolding find_variable lines value_of pieces
find_variable-lines key [] h vs = rw (no_prefix key) refl
find_variable-lines key ((k, v) ∷ e) h vs =
    let split = pieces-append_delim 10 (pair k v) (lines e) (line_Free k v vs.0.1 vs.0.2) in
    elim (Bool-cases (text_eq k key)) [
      | inl q ↦
          let same : k ≡ key = (text_eq_iff k key).0 q in
          rw (split, line_prefix k key v vs.0.0 h, q)
            (ap (λ x. ok (chomp x))
              (ap (λ x. drop (length (key ++ 61 ∷ [])) (pair x v)) same ∙ drop_prefix key v))
      | inr q ↦ rw (split, line_prefix k key v vs.0.0 h, q) (find_variable-lines key e h vs.1)
    ]

lines_nonempty : (k v r : Text) → pair k v ++ r ≢ []
lines_nonempty [] v r e = cc
lines_nonempty (c ∷ k) v r e = cc

read_lines :
    (key : Text) (e : List (Text × Text))
    → Free 61 key
    → All IsVariable e
    → find_variable (key ++ 61 ∷ []) (strsplit 10 (lines e)) ≡ read_value (value_of e key)
unfolding lines value_of find_variable strsplit
read_lines key [] h vs = refl
read_lines key ((k, v) ∷ e) h vs =
    ap (find_variable (key ++ 61 ∷ [])) (strsplit-eq 10 _ (lines_nonempty k v (10 ∷ lines e)))
    ∙ find_variable-lines key ((k, v) ∷ e) h vs

module _ (t : Tools) (config : BootConfig) (grub : GrubLaws t config) where
  open t use {World}

  -- A variable is read without the white space at the end of its value.
  pub grub_env_get-view :
      (w : World) (key : Text)
      → Free 61 key
      → grub_env_get t config key w ≡ read_value (value_of (grub.view w) key)
  unfolding grub_env_get stdout_of
  grub_env_get-view w key h = rw (grub.list w) (read_lines key (grub.view w) h (grub.variables w))

  -- A successful `grub_env_set` makes its assignments.
  pub grub_env_set-view :
      (w : World) (ps : List (Text × Text)) (j : Text)
      → All IsVariable ps
      → (grub_env_set t config (pairs ps) w).0 ≡ ok tt
      → value_of (grub.view (grub_env_set t config (pairs ps) w).1) j
        ≡ assigned ps j (value_of (grub.view w) j)
  unfolding grub_env_set
  grub_env_set-view w ps j vs h = at config.grubenv_path refl h
    where
      set_at : Option Text → Result (Unit {0}) × World
      set_at path = elim path [
        | none ↦ (err aborted, w)
        | some path ↦
            let (c, w') = t.update (codes "grub-editenv" ∷ path ∷ codes "set" ∷ pairs ps) w in
            (checked c, w')
      ]

      at :
          (path : Option Text)
          → config.grubenv_path ≡ path
          → (set_at path).0 ≡ ok tt
          → value_of (grub.view (set_at path).1) j ≡ assigned ps j (value_of (grub.view w) j)
      at none e k = cc
      at (some path) e k = grub.set w path j ps e vs (checked-ok _ k)
