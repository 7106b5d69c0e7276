-- ===== src/Boot/Efi/Read.antt =====
-- What efi.c reads from the output of `efibootmgr`, of which one line has the boot order.
use rauc.Prelude.{
  ◌≡◌, ◌≢◌, refl, ap, ◌∙◌, false, true, has_prefix, Option, none, some, List, [], ◌∷◌, ◌++◌, Text,
  codes, strsplit, All, All-append, ok,
}
use rauc.Boot.Efi.{
  EfiBootentry, take_hex, after_prefix, entry_of, number_of, order_of, no_space, matches,
  first_match, get_efi_entry_by_bootnum, by_number, Bootorder, read_order, parse_bootorder,
}

-- The line of the boot order.
abbrev pub order_line : Text → Text
order_line x = codes "BootOrder: " ++ x

-- An output with one line for the boot order.
abbrev pub lines_of : List Text → Text → List Text → List Text
lines_of before x after = before ++ order_line x ∷ after

order_line-entry : (x : Text) → entry_of (order_line x) ≡ none
unfolding entry_of after_prefix take_hex has_prefix
order_line-entry x = refl

order_line-number :
    (p x : Text) → has_prefix (order_line x) p ≡ false → number_of p (order_line x) ≡ none
unfolding number_of after_prefix
order_line-number p x h = rw (number_of, after_prefix, h) refl

pub order_line-order : (x : Text) → x ≢ [] → no_space x ≡ true → order_of (order_line x) ≡ some x
unfolding order_of after_prefix has_prefix
order_line-order [] n h = absurd (n refl)
order_line-order (c ∷ s) n h = rw h refl

pub order_line-empty : order_of (order_line []) ≡ none
unfolding order_of after_prefix has_prefix
order_line-empty = refl

module _ {A : Type 0} (f : Text → Option A) where
  -- A line that does not match is passed over.
  matches-skip :
      (before : List Text) (l : Text) (after : List Text)
      → f l ≡ none
      → matches f (before ++ l ∷ after) ≡ matches f (before ++ after)
  unfolding matches
  matches-skip [] l after h = rw (matches, h) refl
  matches-skip (x ∷ xs) l after h =
      let step : List A → List A = λ rest. elim (f x) [ none ↦ rest | some a ↦ a ∷ rest ] in
      ap step (matches-skip xs l after h)

  first_match-skip :
      (before : List Text) (l : Text) (after : List Text)
      → f l ≡ none
      → first_match f (before ++ l ∷ after) ≡ first_match f (before ++ after)
  unfolding first_match
  first_match-skip [] l after h = rw (first_match, h) refl
  first_match-skip (x ∷ xs) l after h =
      let step : Option A → Option A = λ rest. elim (f x) [ none ↦ rest | some a ↦ some a ] in
      ap step (first_match-skip xs l after h)

  first_match-at :
      (before : List Text) (l : Text) (after : List Text) (a : A)
      → All (λ x. f x ≡ none) before
      → f l ≡ some a
      → first_match f (before ++ l ∷ after) ≡ some a
  unfolding first_match
  first_match-at [] l after a n h = rw (first_match, h) refl
  first_match-at (x ∷ xs) l after a n h = rw (first_match, n.0) (first_match-at xs l after a n.1 h)

  first_match-none : (ls : List Text) → All (λ x. f x ≡ none) ls → first_match f ls ≡ none
  unfolding first_match
  first_match-none [] n = refl
  first_match-none (x ∷ xs) n = rw (first_match, n.0) (first_match-none xs n.1)

-- What is read from the lines, beside the order.
abbrev pub info_of : List Text → List EfiBootentry → Bootorder
info_of others order =
    let entries = matches entry_of others in
    record {
      order = order;
      entries = entries;
      bootnext = by_number entries (first_match (number_of (codes "BootNext: ")) others);
      bootcurrent = by_number entries (first_match (number_of (codes "BootCurrent: ")) others);
    }

pub parse_bootorder-lines :
    (before : List Text) (x : Text) (after : List Text)
    → matches entry_of (before ++ after) ≢ []
    → All (λ l. order_of l ≡ none) before
    → order_of (order_line x) ≡ some x
    → parse_bootorder (lines_of before x after)
      ≡ ok (
          info_of (before ++ after) (
            matches
              (get_efi_entry_by_bootnum (matches entry_of (before ++ after)))
              (strsplit 44 x)))
unfolding parse_bootorder read_order has_prefix
parse_bootorder-lines before x after some_entry none_before h =
    at (matches entry_of (before ++ after))
      (matches-skip entry_of before (order_line x) after (order_line-entry x)) some_entry
  where
    skipped :
        (p : Text)
        → has_prefix (order_line x) p ≡ false
        → first_match (number_of p) (lines_of before x after)
          ≡ first_match (number_of p) (before ++ after)
    skipped p other =
        first_match-skip (number_of p) before (order_line x) after (order_line-number p x other)

    at :
        (es : List EfiBootentry)
        → matches entry_of (lines_of before x after) ≡ es
        → es ≢ []
        → parse_bootorder (lines_of before x after)
          ≡ ok (record {
            order = matches (get_efi_entry_by_bootnum es) (strsplit 44 x);
            entries = es;
            bootnext =
                by_number es (first_match (number_of (codes "BootNext: ")) (before ++ after));
            bootcurrent =
                by_number es (first_match (number_of (codes "BootCurrent: ")) (before ++ after));
          })
    at [] e n = absurd (n refl)
    at (y ∷ ys) e n =
        rw
          (
            parse_bootorder,
            e,
            read_order,
            first_match-at order_of before (order_line x) after x none_before h,
            skipped (codes "BootNext: ") refl,
            skipped (codes "BootCurrent: ") refl,
          )
          refl

-- An empty boot order is not read.
pub parse_bootorder-empty :
    (before after : List Text)
    → All (λ l. order_of l ≡ none) before
    → All (λ l. order_of l ≡ none) after
    → (info : Bootorder) → parse_bootorder (lines_of before [] after) ≢ ok info
unfolding parse_bootorder read_order
parse_bootorder-empty before after none_before none_after info =
    at (matches entry_of (lines_of before [] after)) refl
  where
    at :
        (es : List EfiBootentry)
        → matches entry_of (lines_of before [] after) ≡ es
        → parse_bootorder (lines_of before [] after) ≢ ok info
    at [] e z = let q = rw (parse_bootorder, e) at z in cc
    at (y ∷ ys) e z =
        let no_order =
          first_match-skip order_of before (order_line []) after order_line-empty
          ∙ first_match-none order_of (before ++ after)
              (All-append (λ l. order_of l ≡ none) before after none_before none_after) in
        let q = rw (parse_bootorder, e, read_order, no_order) at z in cc
