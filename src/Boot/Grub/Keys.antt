-- ===== src/Boot/Grub/Keys.antt =====
-- The names of the variables of grub.c: they can be kept in the environment, and differ.
use rauc.Prelude.{
  ◌≡◌, refl, false, some, Text, codes, text_eq, Free, All, All-append, IsGraphic, ◌==◌, arith,
}
use rauc.Boot.Names.{last_or, last_or-append, keys-differ, graphic_line}
use rauc.Boot.Grub.{order_key, ok_key, try_key}
use rauc.Boot.Grub.Laws.{IsVariable}

order_last : last_or 0 order_key ≡ 82
unfolding last_or
order_last = refl

module _ (b : Text) where
  ok_last : last_or 0 (ok_key (some b)) ≡ 75
  unfolding ok_key last_or
  ok_last = last_or-append 0 b 95 (codes "OK")

  try_last : last_or 0 (try_key (some b)) ≡ 89
  unfolding try_key last_or
  try_last = last_or-append 0 b 95 (codes "TRY")

  pub try-ne-ok : text_eq (try_key (some b)) (ok_key (some b)) ≡ false
  try-ne-ok = keys-differ _ _ (λ e. omega (arith, ok_last, try_last, e))

  pub order-ne-ok : text_eq order_key (ok_key (some b)) ≡ false
  order-ne-ok = keys-differ _ _ (λ e. omega (arith, ok_last, order_last, e))

  pub order-ne-try : text_eq order_key (try_key (some b)) ≡ false
  order-ne-try = keys-differ _ _ (λ e. omega (arith, try_last, order_last, e))

pub ok_key-IsVariable :
    (b v : Text) → All IsGraphic b → Free 61 b → Free 10 v → IsVariable (ok_key (some b), v)
unfolding ok_key
ok_key-IsVariable b v g n f = (
  All-append (λ c. (c == 61) ≡ false) b _ n (refl, (refl, (refl, tt))),
  All-append (λ c. (c == 10) ≡ false) b _ (graphic_line b g) (refl, (refl, (refl, tt))),
  f,
)

pub try_key-IsVariable :
    (b v : Text) → All IsGraphic b → Free 61 b → Free 10 v → IsVariable (try_key (some b), v)
unfolding try_key
try_key-IsVariable b v g n f = (
  All-append (λ c. (c == 61) ≡ false) b _ n (refl, (refl, (refl, (refl, tt)))),
  All-append (λ c. (c == 10) ≡ false) b _ (graphic_line b g) (refl, (refl, (refl, (refl, tt)))),
  f,
)

pub order_key-Free : Free 61 order_key × Free 10 order_key
order_key-Free =
    ((refl, (refl, (refl, (refl, (refl, tt))))), (refl, (refl, (refl, (refl, (refl, tt))))))
