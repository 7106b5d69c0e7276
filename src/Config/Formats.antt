-- ===== src/Config/Formats.antt =====
-- src/config_file.c: `parse_bundle_formats`.
pub mod Laws
mod Tests
use rauc.Prelude.{
  Bool, true, false, not, ◌&&◌, ◌||◌, Option, none, some, List, [], ◌∷◌, Text, codes, text_eq,
  strsplit, ◌==◌, if◌then◌else◌, Result, ok, err, ◌>>=◌, config_invalid_format,
}
use rauc.Manifest.Checks.{BundleFormat, format_plain, format_verity, format_crypt}

-- The mask of the formats that are allowed, bit by bit.
pub record FormatMask : Type 0 where
  pub plain : Bool
  pub verity : Bool
  pub crypt : Bool

abbrev pub no_formats : FormatMask
no_formats = record { plain = false; verity = false; crypt = false }

-- A bit is set or cleared.
unfoldable pub set_format : BundleFormat → Bool → FormatMask → FormatMask
set_format format_plain b m = record m { plain = b }
set_format format_verity b m = record m { verity = b }
set_format format_crypt b m = record m { crypt = b }

-- A token without its sign: whether it has one, whether that is a minus, and the name.
unfoldable pub split_sign : Text → Bool × Bool × Text
split_sign [] = (false, false, [])
split_sign (c ∷ token) =
    if c == b'-'
    then (true, true, token)
    else if c == b'+'
    then (true, false, token)
    else (false, false, c ∷ token)

unfoldable pub format_of : Text → Option BundleFormat
format_of token =
    if text_eq token (codes "plain")
    then some format_plain
    else if text_eq token (codes "verity")
    then some format_verity
    else if text_eq token (codes "crypt")
    then some format_crypt
    else none

-- `imask`, `set` and `modify`
pub record FormatState : Type 0 where
  pub mask : FormatMask
  pub set : Bool
  pub modify : Bool

-- What a token with a known name does.
unfoldable pub apply_token : Bool → Bool → BundleFormat → FormatState → FormatState
apply_token true minus format st = record {
  mask = set_format format (not minus) st.mask;
  set = st.set;
  modify = true;
}
apply_token false minus format st = record {
  mask = set_format format (not minus) (if st.set then st.mask else no_formats);
  set = true;
  modify = st.modify;
}

unfoldable pub apply_format : Bool → Bool → Option BundleFormat → FormatState → Result FormatState
apply_format signed minus none st = err config_invalid_format
apply_format signed minus (some format) st = ok (apply_token signed minus format st)

-- One token; an empty one is skipped.
unfoldable pub read_token : Text → FormatState → Result FormatState
read_token [] st = ok st
read_token (c ∷ cs) st =
    let (signed, minus, token) = split_sign (c ∷ cs) in
    apply_format signed minus (format_of token) st

-- The loop over the tokens.
unfoldable pub read_tokens : List Text → FormatState → Result FormatState
read_tokens [] st = ok st
read_tokens (token ∷ tokens) st = read_token token st >>= λ next. read_tokens tokens next

-- The checks after the loop.
unfoldable pub check_formats : FormatState → Result FormatMask
check_formats st =
    if st.set && st.modify
    then err config_invalid_format
    else if not (st.mask.plain || (st.mask.verity || st.mask.crypt))
    then err config_invalid_format
    else ok st.mask

-- `parse_bundle_formats`
unfoldable pub parse_bundle_formats : FormatMask → Text → Result FormatMask
parse_bundle_formats mask config = do
  st ← read_tokens (strsplit b' ' config) (record { mask = mask; set = false; modify = false })
  check_formats st
