-- ===== src/Utils/Semver/Tests.antt =====
-- Runs of the comparison of versions.
use rauc.Prelude.{◌≡◌, refl, ◌⊎◌, true, none, some, codes, strsplit, pieces, ok, err, semver_parse}
use rauc.Utils.Semver.{
  Core, all_digits, decimal, string_to_unsigned, split_last, split_first, split_max, numbers,
  parse_core, r_semver_parse, text_less, key_less, field_less, fields_le, pre_release_le,
  version_le, r_semver_less_equal,
}
use rauc.Utils.Semver.Order.{less_equal_total, less_equal_trans, less_equal_antisym}

abbrev core : Core
core = record { major = 1; minor = 13; patch = 0 }

alpha :
    r_semver_parse (codes "1.13-alpha.2+x")
    ≡ ok (record { core = core; pre_release = some (codes "alpha.2"); build = some (codes "x") })
unfolding r_semver_parse split_last parse_core split_max split_first numbers string_to_unsigned
    all_digits decimal
alpha = refl

beta :
    r_semver_parse (codes "1.13-alpha.10")
    ≡ ok (record { core = core; pre_release = some (codes "alpha.10"); build = none })
unfolding r_semver_parse split_last parse_core split_max split_first numbers string_to_unsigned
    all_digits decimal
beta = refl

-- A version without a number, and one whose pre-release has a hyphen, are refused.
refused :
    (r_semver_parse (codes "1.x") ≡ err semver_parse)
    × (r_semver_parse (codes "1.0-a-b") ≡ err semver_parse)
unfolding r_semver_parse split_last parse_core split_max split_first numbers string_to_unsigned
    all_digits decimal
refused = (refl, refl)

less_equal_total_example :
    (r_semver_less_equal (codes "1.13-alpha.2+x") (codes "1.13-alpha.10") ≡ ok true)
    ⊎ (r_semver_less_equal (codes "1.13-alpha.10") (codes "1.13-alpha.2+x") ≡ ok true)
less_equal_total_example =
    less_equal_total (codes "1.13-alpha.2+x") (codes "1.13-alpha.10") _ _ alpha beta

first : r_semver_less_equal (codes "1.13-alpha.2+x") (codes "1.13-alpha.10") ≡ ok true
unfolding r_semver_less_equal version_le pre_release_le fields_le field_less key_less text_less
    strsplit pieces r_semver_parse split_last parse_core split_max split_first numbers
    string_to_unsigned all_digits decimal
first = refl

second : r_semver_less_equal (codes "1.13-alpha.10") (codes "1.13") ≡ ok true
unfolding r_semver_less_equal version_le pre_release_le fields_le field_less key_less text_less
    strsplit pieces r_semver_parse split_last parse_core split_max split_first numbers
    string_to_unsigned all_digits decimal
second = refl

less_equal_trans_example : r_semver_less_equal (codes "1.13-alpha.2+x") (codes "1.13") ≡ ok true
less_equal_trans_example =
    less_equal_trans (codes "1.13-alpha.2+x") (codes "1.13-alpha.10") (codes "1.13") first second

gamma :
    r_semver_parse (codes "1.13.0-alpha.10+y")
    ≡ ok (record { core = core; pre_release = some (codes "alpha.10"); build = some (codes "y") })
unfolding r_semver_parse split_last parse_core split_max split_first numbers string_to_unsigned
    all_digits decimal
gamma = refl

le_gamma :
    (r_semver_less_equal (codes "1.13-alpha.10") (codes "1.13.0-alpha.10+y") ≡ ok true)
    × (r_semver_less_equal (codes "1.13.0-alpha.10+y") (codes "1.13-alpha.10") ≡ ok true)
unfolding r_semver_less_equal version_le pre_release_le fields_le field_less key_less text_less
    strsplit pieces r_semver_parse split_last parse_core split_max split_first numbers
    string_to_unsigned all_digits decimal
le_gamma = (refl, refl)

less_equal_antisym_example :
    (core.major ≡ core.major) × (core.minor ≡ core.minor) × (core.patch ≡ core.patch)
less_equal_antisym_example =
    less_equal_antisym (codes "1.13-alpha.10") (codes "1.13.0-alpha.10+y") _ _ beta gamma le_gamma.0
      le_gamma.1
