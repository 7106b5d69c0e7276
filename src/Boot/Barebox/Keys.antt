-- ===== src/Boot/Barebox/Keys.antt =====
-- The names of the variables of barebox.c differ.
use rauc.Prelude.{
  ◌≡◌, sym, ap, ◌∙◌, inl, inr, false, Bool-cases, some, ◌++◌, Text, codes, text_eq, text_eq_refl,
  text_eq_iff, text_ne, arith,
}
use mathlib.Core.List.{append_cancel_left, append_cancel_right}
use rauc.Boot.Names.{last_or, last_or-append, keys-differ}
use rauc.Boot.Barebox.{prio_key, attempts_key}

module _ (b : Text) where
  prio_last : last_or 0 (prio_key (some b)) ≡ 121
  unfolding prio_key last_or
  prio_last = last_or-append 46 b 46 (codes "priority")

  attempts_last : last_or 0 (attempts_key (some b)) ≡ 115
  unfolding attempts_key last_or
  attempts_last = last_or-append 46 b 46 (codes "remaining_attempts")

pub prio-ne-attempts : (b c : Text) → text_eq (prio_key (some b)) (attempts_key (some c)) ≡ false
prio-ne-attempts b c = keys-differ _ _ (λ e. omega (arith, prio_last b, attempts_last c, e))

pub attempts-ne-prio : (b c : Text) → text_eq (attempts_key (some b)) (prio_key (some c)) ≡ false
attempts-ne-prio b c = keys-differ _ _ (λ e. omega (arith, attempts_last b, prio_last c, e))

wrapped : (p b c q : Text) → text_eq (p ++ (b ++ q)) (p ++ (c ++ q)) ≡ text_eq b c
wrapped p b c q = elim (Bool-cases (text_eq b c)) [
  | inl e ↦
      ap (λ x. text_eq (p ++ (b ++ q)) (p ++ (x ++ q))) (sym ((text_eq_iff b c).0 e))
      ∙ text_eq_refl (p ++ (b ++ q))
      ∙ sym e
  | inr e ↦
      text_ne (p ++ (b ++ q)) (p ++ (c ++ q)) (λ z. cc (
        e,
        (text_eq_iff b c).1 (append_cancel_right b c q (append_cancel_left p (b ++ q) (c ++ q) z)),
      ))
      ∙ sym e
]

-- The variables of two bootnames are the same where the bootnames are.
pub prio_key_eq : (b c : Text) → text_eq (prio_key (some b)) (prio_key (some c)) ≡ text_eq b c
unfolding prio_key
prio_key_eq b c = wrapped (codes "bootstate.") b c (codes ".priority")

pub attempts_key_eq :
    (b c : Text) → text_eq (attempts_key (some b)) (attempts_key (some c)) ≡ text_eq b c
unfolding attempts_key
attempts_key_eq b c = wrapped (codes "bootstate.") b c (codes ".remaining_attempts")
