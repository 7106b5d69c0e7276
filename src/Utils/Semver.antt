-- ===== src/Utils/Semver.antt =====
-- src/utils.c: `r_semver_parse` and `r_semver_less_equal`.
pub mod Order
mod Tests
use rauc.Prelude.{
  ℕ, zero, suc, ◌+◌, ◌*◌, ◌-◌, ◌^◌, Bool, true, false, not, ◌&&◌, ◌||◌, Option, none, some, List,
  [], ◌∷◌, ◌++◌, Text, codes, ltb, leb, ◌==◌, strsplit, if◌then◌else◌, Result, ok, err, ◌>>=◌,
  semver_parse,
}

-- `g_ascii_string_to_unsigned(s, 10, 0, G_MAXUINT64)`: digits only, at least one, and no overflow.
unfoldable pub all_digits : Text → Bool
all_digits [] = true
all_digits (c ∷ s) = (leb b'0' c && leb c b'9') && all_digits s

unfoldable pub decimal : ℕ → Text → ℕ
decimal acc [] = acc
decimal acc (c ∷ s) = decimal (acc * 10 + (c - 48)) s

unfoldable pub string_to_unsigned : Text → Option ℕ
string_to_unsigned [] = none
string_to_unsigned (c ∷ s) =
    let n = decimal 0 (c ∷ s) in if all_digits (c ∷ s) && ltb n (2 ^ 64) then some n else none

-- What stands before and after the last `sep`, which `g_strrstr` finds.
unfoldable pub split_last : ℕ → Text → Option (Text × Text)
split_last sep [] = none
split_last sep (c ∷ s) = elim (split_last sep s) [
  | some (before, after) ↦ some (c ∷ before, after)
  | none ↦ if c == sep then some ([], s) else none
]

abbrev before_last : ℕ → Text → Text
before_last sep s = elim (split_last sep s) [ none ↦ s | some (before, after) ↦ before ]

abbrev after_last : ℕ → Text → Option Text
after_last sep s = elim (split_last sep s) [ none ↦ none | some (before, after) ↦ some after ]

-- What stands before and after the first `sep`.
unfoldable pub split_first : ℕ → Text → Text × Option Text
split_first sep [] = ([], none)
split_first sep (c ∷ s) =
    let (before, after) = split_first sep s in
    if c == sep then ([], some s) else (c ∷ before, after)

-- `g_strsplit(s, sep, n)` of a text that is not empty: at most `n` pieces.
unfoldable pub split_max : ℕ → ℕ → Text → List Text
split_max sep zero s = []
split_max sep (suc zero) s = s ∷ []
split_max sep (suc (suc n)) s =
    let (before, after) = split_first sep s in
    before ∷ elim after [ none ↦ [] | some rest ↦ split_max sep (suc n) rest ]

-- The numbers of a version core; those that are not given are 0.
pub record Core : Type 0 where
  pub major : ℕ
  pub minor : ℕ
  pub patch : ℕ

pub record Semver : Type 0 where
  pub core : Core
  pub pre_release : Option Text
  pub build : Option Text

unfoldable pub numbers : List Text → Result (List ℕ)
numbers [] = ok []
numbers (p ∷ ps) =
    let rest = numbers ps in
    elim (string_to_unsigned p) [ none ↦ err semver_parse | some n ↦ (rest >>= λ ns. ok (n ∷ ns)) ]

abbrev core_of : List ℕ → Core
core_of [] = record { major = 0; minor = 0; patch = 0 }
core_of (a ∷ []) = record { major = a; minor = 0; patch = 0 }
core_of (a ∷ b ∷ []) = record { major = a; minor = b; patch = 0 }
core_of (a ∷ b ∷ c ∷ _) = record { major = a; minor = b; patch = c }

-- The version core; the empty text has no components.
unfoldable pub parse_core : Text → Result Core
parse_core [] = err semver_parse
parse_core (c ∷ s) = numbers (split_max b'.' 3 (c ∷ s)) >>= λ ns. ok (core_of ns)

-- `r_semver_parse`
unfoldable pub r_semver_parse : Text → Result Semver
r_semver_parse version =
    let rest = before_last b'+' version in
    parse_core (before_last b'-' rest) >>= λ core.
    ok (record { core = core; pre_release = after_last b'-' rest; build = after_last b'+' version })

-- The sign of `g_strcmp0` on two texts: whether the first is the lesser.
unfoldable pub text_less : Text → Text → Bool
text_less [] [] = false
text_less [] (d ∷ t) = true
text_less (c ∷ s) [] = false
text_less (c ∷ s) (d ∷ t) =
    let rest = text_less s t in if ltb c d then true else if ltb d c then false else rest

-- Whether a field of a pre-release decides for the first version: numbers are compared as numbers,
-- and are less than other fields, which are compared as texts.
unfoldable pub key_less : Option ℕ → Text → Option ℕ → Text → Bool
key_less (some m) a (some n) b = ltb m n
key_less (some m) a none b = true
key_less none a (some n) b = false
key_less none a none b = text_less a b

unfoldable pub field_less : Text → Text → Bool
field_less a b = key_less (string_to_unsigned a) a (string_to_unsigned b) b

-- The loop over the fields.
unfoldable pub fields_le : List Text → List Text → Bool
fields_le [] ys = true
fields_le (x ∷ xs) [] = false
fields_le (x ∷ xs) (y ∷ ys) =
    let rest = fields_le xs ys in
    if field_less x y then true else if field_less y x then false else rest

-- A version without a pre-release comes after those with one.
unfoldable pub pre_release_le : Option Text → Option Text → Bool
pre_release_le a none = true
pre_release_le none (some q) = false
pre_release_le (some p) (some q) = fields_le (strsplit b'.' p) (strsplit b'.' q)

-- The comparison of two parsed versions.
unfoldable pub version_le : Semver → Semver → Bool
version_le a b =
    if ltb a.core.major b.core.major
    then true
    else if ltb b.core.major a.core.major
    then false
    else if ltb a.core.minor b.core.minor
    then true
    else if ltb b.core.minor a.core.minor
    then false
    else if ltb a.core.patch b.core.patch
    then true
    else if ltb b.core.patch a.core.patch
    then false
    else pre_release_le a.pre_release b.pre_release

-- `r_semver_less_equal`; a version that cannot be parsed is an error.
unfoldable pub r_semver_less_equal : Text → Text → Result Bool
r_semver_less_equal a b = do
  version_a ← r_semver_parse a
  version_b ← r_semver_parse b
  ok (version_le version_a version_b)
