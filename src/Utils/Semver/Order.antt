-- ===== src/Utils/Semver/Order.antt =====
-- `r_semver_less_equal` orders the versions.
use rauc.Prelude.{
  ℕ, ◌≡◌, refl, sym, ap, ◌∙◌, ◌⊎◌, inl, inr, true, false, ◌||◌, Bool-cases, Option, none, some,
  List, [], ◌∷◌, Text, strsplit, ok, >>=-eq-ok, ok_injective, arith,
}
use mathlib.Core.Path.{subst}
use rauc.Utils.Semver.{
  Semver, string_to_unsigned, text_less, key_less, field_less, fields_le, pre_release_le,
  version_le, r_semver_parse, r_semver_less_equal,
}

text_less_asym : (s t : Text) → text_less s t ≡ true → text_less t s ≡ false
unfolding text_less
text_less_asym [] [] h = refl
text_less_asym [] (d ∷ t) h = refl
text_less_asym (c ∷ s) [] h = cc
text_less_asym (c ∷ s) (d ∷ t) h = ground (arith, text_less_asym s t)

-- What is not less stays so along a third text.
text_less_neg :
    (s t u : Text) → text_less s t ≡ false → text_less t u ≡ false → text_less s u ≡ false
unfolding text_less
text_less_neg [] [] u h k = k
text_less_neg [] (d ∷ t) u h k = cc
text_less_neg (c ∷ s) t [] h k = refl
text_less_neg (c ∷ s) [] (e ∷ u) h k = cc
text_less_neg (c ∷ s) (d ∷ t) (e ∷ u) h k = ground (arith, text_less_neg s t u)

module _ (a b : Text) where
  key_less_asym : (k l : Option ℕ) → key_less k a l b ≡ true → key_less l b k a ≡ false
  unfolding key_less
  key_less_asym (some m) (some n) h = ground arith
  key_less_asym (some m) none h = refl
  key_less_asym none (some n) h = cc
  key_less_asym none none h = text_less_asym a b h

key_less_neg :
    (a b c : Text) (k l m : Option ℕ)
    → key_less k a l b ≡ false
    → key_less l b m c ≡ false
    → key_less k a m c ≡ false
unfolding key_less
key_less_neg a b c (some x) (some y) (some z) h g = ground arith
key_less_neg a b c (some x) (some y) none h g = cc
key_less_neg a b c (some x) none m h g = cc
key_less_neg a b c none (some y) none h g = cc
key_less_neg a b c none l (some z) h g = refl
key_less_neg a b c none none none h g = text_less_neg a b c h g

field_less_asym : (a b : Text) → field_less a b ≡ true → field_less b a ≡ false
unfolding field_less
field_less_asym a b = key_less_asym a b (string_to_unsigned a) (string_to_unsigned b)

field_less_neg :
    (a b c : Text) → field_less a b ≡ false → field_less b c ≡ false → field_less a c ≡ false
unfolding field_less
field_less_neg a b c =
    key_less_neg a b c (string_to_unsigned a) (string_to_unsigned b) (string_to_unsigned c)

fields_le_total : (xs ys : List Text) → (fields_le xs ys || fields_le ys xs) ≡ true
unfolding fields_le
fields_le_total [] ys = refl
fields_le_total (x ∷ xs) [] = refl
fields_le_total (x ∷ xs) (y ∷ ys) = ground (arith, field_less_asym x y, fields_le_total xs ys)

fields_le_trans :
    (xs ys zs : List Text)
    → fields_le xs ys ≡ true
    → fields_le ys zs ≡ true
    → fields_le xs zs ≡ true
unfolding fields_le
fields_le_trans [] ys zs h k = refl
fields_le_trans (x ∷ xs) [] zs h k = cc
fields_le_trans (x ∷ xs) (y ∷ ys) [] h k = cc
fields_le_trans (x ∷ xs) (y ∷ ys) (z ∷ zs) h k = ground (
  arith,
  fields_le_trans xs ys zs,
  field_less_asym x y,
  field_less_asym y z,
  field_less_asym z x,
  field_less_neg x y z,
  field_less_neg y z x,
  field_less_neg z x y,
  field_less_neg z y x,
  field_less_neg x z y,
  field_less_neg y x z,
)

pre_release_le_total : (a b : Option Text) → (pre_release_le a b || pre_release_le b a) ≡ true
unfolding pre_release_le
pre_release_le_total none none = refl
pre_release_le_total none (some q) = refl
pre_release_le_total (some p) none = refl
pre_release_le_total (some p) (some q) = fields_le_total (strsplit b'.' p) (strsplit b'.' q)

pre_release_le_trans :
    (a b c : Option Text)
    → pre_release_le a b ≡ true
    → pre_release_le b c ≡ true
    → pre_release_le a c ≡ true
unfolding pre_release_le
pre_release_le_trans a b none h k = refl
pre_release_le_trans none none (some r) h k = k
pre_release_le_trans none (some q) (some r) h k = cc
pre_release_le_trans (some p) none (some r) h k = cc
pre_release_le_trans (some p) (some q) (some r) h k =
    fields_le_trans (strsplit b'.' p) (strsplit b'.' q) (strsplit b'.' r) h k

version_le_total : (a b : Semver) → (version_le a b || version_le b a) ≡ true
unfolding version_le
version_le_total a b = ground (arith, pre_release_le_total a.pre_release b.pre_release)

version_le_trans :
    (a b c : Semver) → version_le a b ≡ true → version_le b c ≡ true → version_le a c ≡ true
unfolding version_le
version_le_trans a b c h k =
    ground (arith, pre_release_le_trans a.pre_release b.pre_release c.pre_release)

-- Of two versions that can be parsed, one is at most the other.
pub less_equal_total :
    (a b : Text) (x y : Semver)
    → r_semver_parse a ≡ ok x
    → r_semver_parse b ≡ ok y
    → (r_semver_less_equal a b ≡ ok true) ⊎ (r_semver_less_equal b a ≡ ok true)
unfolding r_semver_less_equal
less_equal_total a b x y pa pb =
    rw (pa, pb)
      (elim (Bool-cases (version_le x y)) [
        | inl e ↦ inl (ap ok e)
        | inr e ↦ inr (ap ok (ground (arith, version_le_total x y)))
      ])

parsed :
    (a b : Text)
    → r_semver_less_equal a b ≡ ok true
    → (x y : Semver) × (r_semver_parse a ≡ ok x)
      × (r_semver_parse b ≡ ok y)
      × (version_le x y ≡ true)
unfolding r_semver_less_equal
parsed a b h =
    let (x, pa, rest) = >>=-eq-ok (r_semver_parse a) _ h in
    let (y, pb, le) = >>=-eq-ok (r_semver_parse b) _ rest in (x, y, pa, pb, ok_injective le)

-- A version that is at most a second one, which is at most a third one, is at most the third one.
pub less_equal_trans :
    (a b c : Text)
    → r_semver_less_equal a b ≡ ok true
    → r_semver_less_equal b c ≡ ok true
    → r_semver_less_equal a c ≡ ok true
unfolding r_semver_less_equal
less_equal_trans a b c h k =
    let (x, y, pa, pb, le) = parsed a b h in
    let (y', z, pb', pc, le') = parsed b c k in
    let same : y' ≡ y = ok_injective (sym pb' ∙ pb) in
    rw (pa, pc) (ap ok (version_le_trans x y z le (subst (λ v. version_le v z ≡ true) same le')))

-- Two versions that are each at most the other have the same version core.
pub less_equal_antisym :
    (a b : Text) (x y : Semver)
    → r_semver_parse a ≡ ok x
    → r_semver_parse b ≡ ok y
    → r_semver_less_equal a b ≡ ok true
    → r_semver_less_equal b a ≡ ok true
    → (x.core.major ≡ y.core.major) × (x.core.minor ≡ y.core.minor) × (x.core.patch ≡ y.core.patch)
unfolding r_semver_less_equal version_le
less_equal_antisym a b x y pa pb h k =
    let le : version_le x y ≡ true = ok_injective (rw (pa, pb) at h) in
    let ge : version_le y x ≡ true = ok_injective (rw (pa, pb) at k) in ground arith
