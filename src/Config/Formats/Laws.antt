-- ===== src/Config/Formats/Laws.antt =====
-- What `parse_bundle_formats` accepts.
use rauc.Prelude.{
  ◌≡◌, inl, inr, refl, sym, ap, ◌∙◌, Bool, true, false, not, ◌&&◌, ◌||◌, Bool-cases, Option, none,
  some, List, [], ◌∷◌, Text, strsplit, if◌then◌else◌, Result, ok, >>=-eq-ok, ok_injective,
}
use mathlib.Core.Path.{subst}
use rauc.Manifest.Checks.{BundleFormat}
use rauc.Config.Formats.{
  FormatMask, no_formats, set_format, split_sign, format_of, FormatState, apply_token, apply_format,
  read_token, read_tokens, check_formats, parse_bundle_formats,
}

-- Two states of the loop from two masks: the flags are the same, and the masks are once a fixed value
-- was given.
abbrev Alike : FormatState → FormatState → Type 0
Alike a b = (a.set ≡ b.set) × (a.modify ≡ b.modify) × (a.set ≡ true → a.mask ≡ b.mask)

apply_token-Alike :
    (signed minus : Bool) (format : BundleFormat) (a b : FormatState)
    → Alike a b
    → Alike (apply_token signed minus format a) (apply_token signed minus format b)
unfolding apply_token
apply_token-Alike true minus format a b (s, m, k) =
    (s, refl, λ h. ap (set_format format (not minus)) (k h))
apply_token-Alike false minus format a b (s, m, k) =
    (refl, m, λ h. ap (set_format format (not minus)) (start a.set refl))
  where
    start :
        (x : Bool)
        → a.set ≡ x
        → (if a.set then a.mask else no_formats) ≡ (if b.set then b.mask else no_formats)
    start true e = rw (e, sym s ∙ e) (k e)
    start false e = rw (e, sym s ∙ e) refl

abbrev AlsoRead : Result FormatState → FormatState → Type 0
AlsoRead r st = (st' : FormatState) × (r ≡ ok st') × Alike st st'

apply_format-Alike :
    (signed minus : Bool) (o : Option BundleFormat) (a b st : FormatState)
    → Alike a b
    → apply_format signed minus o a ≡ ok st
    → AlsoRead (apply_format signed minus o b) st
unfolding apply_format
apply_format-Alike signed minus none a b st k h = cc
apply_format-Alike signed minus (some format) a b st k h = (
  apply_token signed minus format b,
  refl,
  subst (λ x. Alike x (apply_token signed minus format b)) (ok_injective h)
      (apply_token-Alike signed minus format a b k),
)

read_token-Alike :
    (token : Text) (a b st : FormatState)
    → Alike a b
    → read_token token a ≡ ok st
    → AlsoRead (read_token token b) st
unfolding read_token
read_token-Alike [] a b st k h = (b, refl, subst (λ x. Alike x b) (ok_injective h) k)
read_token-Alike (c ∷ cs) a b st k h =
    apply_format-Alike (split_sign (c ∷ cs)).0 (split_sign (c ∷ cs)).1
      (format_of (split_sign (c ∷ cs)).2) a b st k h

read_tokens-Alike :
    (tokens : List Text) (a b st : FormatState)
    → Alike a b
    → read_tokens tokens a ≡ ok st
    → AlsoRead (read_tokens tokens b) st
unfolding read_tokens
read_tokens-Alike [] a b st k h = (b, refl, subst (λ x. Alike x b) (ok_injective h) k)
read_tokens-Alike (token ∷ tokens) a b st k h =
    let (next, now, later) = >>=-eq-ok (read_token token a) _ h in
    let (next', now', alike) = read_token-Alike token a b next k now in
    let (st', read, done) = read_tokens-Alike tokens next next' st alike later in
    (st', rw now' read, done)

check_formats-ok :
    (st : FormatState) (mask : FormatMask)
    → check_formats st ≡ ok mask
    → (st.mask ≡ mask)
      × ((st.set && st.modify) ≡ false)
      × ((mask.plain || (mask.verity || mask.crypt)) ≡ true)
unfolding check_formats
check_formats-ok st mask h = elim (Bool-cases (st.set && st.modify)) [
  | inl e ↦ absurd (let z = rw e at h in cc)
  | inr e ↦ elim (Bool-cases (st.mask.plain || (st.mask.verity || st.mask.crypt))) [
    | inr n ↦ absurd (let z = rw (e, n) at h in cc)
    | inl y ↦
        let same : st.mask ≡ mask = ok_injective (rw (e, y) at h) in
        (same, e, subst (λ m. (m.plain || (m.verity || m.crypt)) ≡ true) same y)
  ]
]

check_formats-Alike :
    (a b : FormatState) (mask : FormatMask)
    → Alike a b
    → a.set ≡ true
    → check_formats a ≡ ok mask
    → check_formats b ≡ ok mask
check_formats-Alike a b mask (s, m, k) e h =
    let same : a.mask ≡ b.mask = k e in
    let equal : a ≡ b = λ i. record { mask = same i; set = s i; modify = m i } in
    ap check_formats (sym equal) ∙ h

-- Where the tokens have a fixed value, without a sign, and `parse_bundle_formats` accepts them, a
-- format is allowed, and the same formats are whatever was allowed before.
pub parse_bundle_formats-fixed :
    (mask other result : FormatMask) (config : Text) (st : FormatState)
    → read_tokens (strsplit b' ' config) (record { mask = mask; set = false; modify = false })
      ≡ ok st
    → st.set ≡ true
    → parse_bundle_formats mask config ≡ ok result
    → ((result.plain || (result.verity || result.crypt)) ≡ true)
      × (parse_bundle_formats other config ≡ ok result)
unfolding parse_bundle_formats
parse_bundle_formats-fixed mask other result config st read fixed h =
    let (st1, read1, checked) =
      >>=-eq-ok
        (read_tokens (strsplit b' ' config) (record { mask = mask; set = false; modify = false })) _
        h in
    let same : st1 ≡ st = ok_injective (sym read1 ∙ read) in
    let checked' = subst (λ x. check_formats x ≡ ok result) same checked in
    let (st', read', alike) =
      read_tokens-Alike (strsplit b' ' config) (record { mask = mask; set = false; modify = false })
        (record { mask = other; set = false; modify = false }) st (refl, refl, λ z. cc) read in
    (
      (check_formats-ok st result checked').2,
      rw read' (check_formats-Alike st st' result alike fixed checked'),
    )
