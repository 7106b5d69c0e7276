-- ===== src/Boot/Barebox/Tests.antt =====
-- Runs of the barebox backend on a state held in memory.
use rauc.Prelude.{
  strsplit, pieces, skip_space, print_digits, ℕ, ◌<◌, ◌^◌, ◌≡◌, refl, ap, ◌∙◌, ◌⊎◌, inl, inr,
  Bool-cases, Option, none, some, List, [], ◌∷◌, ◌++◌, Text, All, codes, text_eq, ◌==◌, ltb, ltb→lt,
  lt→ltb, Free, print_dec, strtoull, strcmp0_eq, if◌then◌else◌, ok, Output, Check, arith,
}
use rauc.Prelude.Number.RoundTrip.{strtoull-print_dec, print_dec-Free}
use rauc.Samples.{boot_config, rootfs_b}
use rauc.Boot.Tools.{Tools, stdout_of, checked}
use rauc.Boot.Names.{find_by_bootname}
use rauc.Boot.Barebox.{
  prio_key, attempts_key, get_args, set_args, set_options, barebox_set_primary, barebox_backend,
  new_priorities, barebox_state_get, read_line, starts_number, barebox_state_set,
}
use rauc.Boot.Barebox.Laws.{BareboxLaws, assigned}
use rauc.Boot.Barebox.Contract.{IsOwner, barebox_backend-IsBackend}

abbrev State : Type 0
State = Text → Option ℕ

-- The value of a 32-bit variable.
abbrev word : Option ℕ → Option ℕ
word none = none
word (some n) = if ltb n (2 ^ 32) then some n else none

abbrev answer : Option ℕ → Option ℕ → Output
answer none a = Output.exited 1 []
answer (some p) none = Output.exited 1 []
answer (some p) (some a) = Output.exited 0 (print_dec p ++ 10 ∷ (print_dec a ++ 10 ∷ []))

abbrev query_state : List Text → State → Output
query_state (c ∷ g ∷ p ∷ h ∷ a ∷ []) w = answer (word (w p)) (word (w a))
query_state _ w = Output.not_started

-- The name and the value at the last `=`.
unfoldable split_value : Text → Option (Text × Text)
split_value [] = none
split_value (c ∷ s) = elim (split_value s) [
  | none ↦ if c == 61 then some ([], s) else none
  | some (k, v) ↦ some (c ∷ k, v)
]

abbrev put : Option (Text × Text) → State → State
put none w = w
put (some (k, v)) w = λ j. if text_eq k j then some (strtoull 10 v) else w j

unfoldable puts : List Text → State → State
puts [] w = w
puts (s ∷ []) w = w
puts (s ∷ x ∷ xs) w = puts xs (put (split_value x) w)

abbrev update_state : List Text → State → Check × State
update_state [] w = (Check.not_started, w)
update_state (c ∷ xs) w = (Check.success, puts xs w)

abbrev memory : Tools
memory = record { World = State; query = query_state; update = update_state }

split_value-Free : (s : Text) → Free 61 s → split_value s ≡ none
unfolding split_value
split_value-Free [] h = refl
split_value-Free (c ∷ s) h = rw (split_value-Free s h.1, h.0) refl

split_value-append : (k v : Text) → Free 61 v → split_value (k ++ 61 ∷ v) ≡ some (k, v)
unfolding split_value
split_value-append [] v h = rw (split_value-Free v h) refl
split_value-append (c ∷ k) v h = rw (split_value-append k v h) refl

word-assigned :
    (ps : List (Text × ℕ)) (j : Text) (old : Option ℕ)
    → All (λ (p : Text × ℕ). p.1 < 2 ^ 32) ps
    → word (assigned ps j old) ≡ assigned ps j (word old)
unfolding assigned
word-assigned [] j old h = refl
word-assigned ((k, v) ∷ ps) j old h = elim (Bool-cases (text_eq k j)) [
  | inl e ↦
      rw e (word-assigned ps j (some v) h.1 ∙ ap (assigned ps j) (rw (lt→ltb v (2 ^ 32) h.0) refl))
  | inr e ↦ rw e (word-assigned ps j old h.1)
]

puts-assigned :
    (ps : List (Text × ℕ)) (w : State) (j : Text)
    → All (λ (p : Text × ℕ). p.1 < 2 ^ 32) ps
    → puts (set_options ps ++ []) w j ≡ assigned ps j (w j)
unfolding puts set_options assigned
puts-assigned [] w j h = refl
puts-assigned ((k, v) ∷ ps) w j h =
    puts-assigned ps (put (split_value (k ++ 61 ∷ print_dec v)) w) j h.1
    ∙ ap (assigned ps j)
        (rw (split_value-append k (print_dec v) (print_dec-Free v), strtoull-print_dec v h.0) refl)

word-small : (o : Option ℕ) (n : ℕ) → word o ≡ some n → n < 2 ^ 32
word-small none n h = cc
word-small (some m) n h = ground (arith, ltb→lt m (2 ^ 32))

memory_laws : BareboxLaws memory boot_config
unfolding get_args set_args
memory_laws = record {
  view = λ w k. word (w k);
  small = λ w k n h. word-small (w k) n h;
  get = λ w b p a hp ha. rw (hp, ha) refl;
  missing = λ w b m. missing_value (word (w (prio_key b))) (word (w (attempts_key b))) m;
  set = λ w ps j l h. ap word (puts-assigned ps w j l) ∙ word-assigned ps j (w j) l;
}
  where
    missing_value : (p a : Option ℕ) → (p ≡ none) ⊎ (a ≡ none) → answer p a ≡ Output.exited 1 []
    missing_value none a m = refl
    missing_value (some p) none m = refl
    missing_value (some p) (some a) (inl e) = cc
    missing_value (some p) (some a) (inr e) = cc

-- A has the priority 20, B has been marked bad.
abbrev state : State
state k =
    if text_eq k (prio_key (some (codes "A")))
    then some 20
    else if text_eq k (attempts_key (some (codes "A")))
    then some 3
    else if text_eq k (prio_key (some (codes "B")))
    then some 0
    else if text_eq k (attempts_key (some (codes "B")))
    then some 0
    else none

owner : IsOwner boot_config.slots rootfs_b
unfolding find_by_bootname strcmp0_eq text_eq
owner = record {
  name = codes "B";
  named = refl;
  first = refl;
  agrees = (
    (λ h. ground arith, λ h. ground arith),
    (
      (λ h. ground arith, λ h. ground arith),
      ((λ h. refl, λ h. refl), ((λ h. ground arith, λ h. ground arith), tt)),
    ),
  );
}

barebox_backend-IsBackend_example :
    (barebox_backend memory boot_config).get_primary
      ((barebox_backend memory boot_config).set_primary rootfs_b state).1
    ≡ ok rootfs_b
unfolding barebox_set_primary new_priorities barebox_state_get get_args stdout_of read_line
    starts_number skip_space strsplit pieces strtoull barebox_state_set set_args checked text_eq
    prio_key attempts_key print_dec print_digits
barebox_backend-IsBackend_example =
    (barebox_backend-IsBackend memory boot_config memory_laws (omega arith)).primary_read rootfs_b
      state owner refl
