-- ===== src/Prelude/Strings.antt =====
-- C strings as lists of bytes, with the comparisons and the trimming of the GLib string library.
use Prim.Native.Char.{code}
use Prim.Native.String.{String}
use Prim.Native.Nat.{ℕ}
use mathlib.Core.Path.{◌≡◌, refl, ap}
use mathlib.Core.Logic.{◌↔◌, ◌≢◌, ◌⊎◌, inl, inr}
use mathlib.Core.Bool.{Bool, true, false, ◌&&◌, ◌||◌}
use mathlib.Core.Option.{Option, none, some}
use mathlib.Core.List.{List, [], ◌∷◌, ◌++◌}
use native.Mathlib.Omega.{arith}
use rauc.Prelude.Tests.{leb, ◌==◌, if◌then◌else◌}
use rauc.Prelude.Lists.{All}

abbrev pub Text : Type 0
Text = List ℕ

abbrev pub codes : String → Text
codes String.[] = []
codes (String.◌∷◌ c s) = code c ∷ codes s

-- `g_strcmp0(s, t) == 0` on strings that are not NULL.
unfoldable pub text_eq : Text → Text → Bool
text_eq [] [] = true
text_eq [] (b ∷ t) = false
text_eq (a ∷ s) [] = false
text_eq (a ∷ s) (b ∷ t) = a == b && text_eq s t

pub text_eq_iff : (s t : Text) → (text_eq s t ≡ true) ↔ (s ≡ t)
unfolding text_eq
text_eq_iff [] [] = (λ e. refl, λ e. refl)
text_eq_iff [] (b ∷ t) = (λ e. cc, λ e. cc)
text_eq_iff (a ∷ s) [] = (λ e. cc, λ e. cc)
text_eq_iff (a ∷ s) (b ∷ t) =
    (λ e. ground (arith, text_eq_iff s t), λ e. ground (arith, text_eq_iff s t))

pub text_eq_refl : (s : Text) → text_eq s s ≡ true
text_eq_refl s = (text_eq_iff s s).1 refl

pub text_ne : (s t : Text) → s ≢ t → text_eq s t ≡ false
text_ne s t h = ground (arith, text_eq_iff s t)

-- `g_strcmp0(s, t) == 0`, where NULL is equal to NULL only.
unfoldable pub strcmp0_eq : Option Text → Option Text → Bool
strcmp0_eq none none = true
strcmp0_eq none (some t) = false
strcmp0_eq (some s) none = false
strcmp0_eq (some s) (some t) = text_eq s t

pub strcmp0_eq_iff : (s t : Option Text) → (strcmp0_eq s t ≡ true) ↔ (s ≡ t)
unfolding strcmp0_eq
strcmp0_eq_iff none none = (λ e. refl, λ e. refl)
strcmp0_eq_iff none (some t) = (λ e. cc, λ e. cc)
strcmp0_eq_iff (some s) none = (λ e. cc, λ e. cc)
strcmp0_eq_iff (some s) (some t) =
    (λ e. ap some ((text_eq_iff s t).0 e), λ e. (text_eq_iff s t).1 (ground arith))

-- `g_str_has_prefix(s, p)`
unfoldable pub has_prefix : Text → Text → Bool
has_prefix s [] = true
has_prefix [] (b ∷ p) = false
has_prefix (a ∷ s) (b ∷ p) = a == b && has_prefix s p

pub has_prefix-append : (p s : Text) → has_prefix (p ++ s) p ≡ true
unfolding has_prefix
has_prefix-append [] s = refl
has_prefix-append (b ∷ p) s = ground (arith, has_prefix-append p s)

-- `isspace` of the C locale.
abbrev pub is_space : ℕ → Bool
is_space c = c == 32 || (leb 9 c && leb c 13)

-- `g_strchomp` removes the white space at the end.
chomp_cons : ℕ → Text → Text
chomp_cons c [] = if is_space c then [] else c ∷ []
chomp_cons c (d ∷ t) = c ∷ d ∷ t

unfoldable pub chomp : Text → Text
unfolding chomp_cons
chomp [] = []
chomp (c ∷ s) = chomp_cons c (chomp s)

abbrev pub IsGraphic : ℕ → Type 0
IsGraphic c = is_space c ≡ false

chomp_cons_graphic : (c : ℕ) (t : Text) → IsGraphic c → chomp_cons c t ≡ c ∷ t
unfolding chomp_cons
chomp_cons_graphic c [] h = ground arith
chomp_cons_graphic c (d ∷ t) h = refl

-- What stands before the white space at the end is kept.
pub chomp-append : (b r : Text) → All IsGraphic b → chomp (b ++ r) ≡ b ++ chomp r
unfolding chomp
chomp-append [] r h = refl
chomp-append (c ∷ b) r h = rw (chomp-append b r h.1) (chomp_cons_graphic c (b ++ chomp r) h.0)

-- After a space there is nothing left, or the space is.
pub chomp_space : (r : Text) → (chomp (32 ∷ r) ≡ []) ⊎ ((q : Text) × (chomp (32 ∷ r) ≡ 32 ∷ q))
unfolding chomp
chomp_space r = space_cases (chomp r)
  where
    space_cases : (u : Text) → (chomp_cons 32 u ≡ []) ⊎ ((q : Text) × (chomp_cons 32 u ≡ 32 ∷ q))
    space_cases [] = inl refl
    space_cases (d ∷ u) = inr (d ∷ u, refl)
