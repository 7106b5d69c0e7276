-- ===== src/Config/Formats/Tests.antt =====
-- Configurations of the bundle formats.
use rauc.Prelude.{
  ◌≡◌, ◌||◌, refl, true, false, codes, text_eq, strsplit, pieces, ok, err, config_invalid_format,
}
use rauc.Config.Formats.{
  FormatMask, set_format, split_sign, format_of, FormatState, apply_token, apply_format, read_token,
  read_tokens, check_formats, parse_bundle_formats,
}
use rauc.Config.Formats.Laws.{parse_bundle_formats-fixed}

abbrev all : FormatMask
all = record { plain = true; verity = true; crypt = true }

abbrev no_plain : FormatMask
no_plain = record { plain = false; verity = true; crypt = true }

abbrev only_plain : FormatMask
only_plain = record { plain = true; verity = false; crypt = false }

abbrev fixed : FormatState
fixed = record { mask = no_plain; set = true; modify = false }

fixed_read :
    read_tokens
      (strsplit b' ' (codes "verity crypt"))
      (record { mask = all; set = false; modify = false })
    ≡ ok fixed
unfolding read_tokens read_token apply_format apply_token set_format split_sign format_of text_eq
    strsplit pieces
fixed_read = refl

accepted : parse_bundle_formats all (codes "verity crypt") ≡ ok no_plain
unfolding parse_bundle_formats check_formats read_tokens read_token apply_format apply_token
    set_format split_sign format_of text_eq strsplit pieces
accepted = refl

-- A sign beside a fixed value, and the removal of the last format, are refused.
refused :
    (parse_bundle_formats all (codes "verity -plain") ≡ err config_invalid_format)
    × (parse_bundle_formats only_plain (codes "-plain") ≡ err config_invalid_format)
unfolding parse_bundle_formats check_formats read_tokens read_token apply_format apply_token
    set_format split_sign format_of text_eq strsplit pieces
refused = (refl, refl)

parse_bundle_formats-fixed_example :
    ((no_plain.plain || (no_plain.verity || no_plain.crypt)) ≡ true)
    × (parse_bundle_formats only_plain (codes "verity crypt") ≡ ok no_plain)
parse_bundle_formats-fixed_example =
    parse_bundle_formats-fixed all only_plain no_plain (codes "verity crypt") fixed fixed_read refl
      accepted
