-- ===== src/Boot/Efi/Numbers.antt =====
-- The boot order as a string of numbers, and back.
use mathlib.Core.Path.{subst}
use mathlib.Core.Option.{some-injective}
use rauc.Prelude.{
  ◌≡◌, ◌≢◌, refl, sym, ap, ◌∙◌, inl, inr, false, true, Bool-cases, Option-cases, Option, some, List,
  [], ◌∷◌, ◌++◌, append-nil, map, Text, strcmp0_eq, strsplit, strsplit-strjoinv, strjoinv,
  join_rest, Free, is_space, All,
}
use rauc.Boot.Efi.{
  EfiBootentry, no_space, matches, get_efi_entry_by_bootnum, remove_entry, find_entry, join_nums,
}

-- The number of an entry, as `efibootmgr` prints it: neither spaces nor commas.
pub record IsNumber (num : Text) : Type 0 where
  pub nonempty : num ≢ []
  pub graphic : All (λ c. is_space c ≡ false) num
  pub no_comma : Free 44 num

-- An entry that is found by its number.
pub record IsNumbered (entries : List EfiBootentry) (e : EfiBootentry) : Type 0 where
  pub number : IsNumber e.num
  pub found : get_efi_entry_by_bootnum entries e.num ≡ some e

abbrev pub nums : List EfiBootentry → List Text
nums es = map (λ (e : EfiBootentry). e.num) es

join_nums-rest :
    (e : EfiBootentry) (es : List EfiBootentry)
    → join_nums (e ∷ es) ≡ e.num ++ join_rest 44 (nums es)
unfolding join_nums join_rest
join_nums-rest e [] = sym (append-nil e.num)
join_nums-rest e (x ∷ es) = ap (λ r. e.num ++ 44 ∷ r) (join_nums-rest x es)

pub join_nums-strjoinv : (es : List EfiBootentry) → join_nums es ≡ strjoinv 44 (nums es)
unfolding strjoinv join_nums
join_nums-strjoinv [] = refl
join_nums-strjoinv (e ∷ es) = join_nums-rest e es

no_space-append :
    (a b : Text) → All (λ c. is_space c ≡ false) a → no_space b ≡ true → no_space (a ++ b) ≡ true
unfolding no_space
no_space-append [] b h k = k
no_space-append (c ∷ s) b h k = rw (h.0, no_space-append s b h.1 k)

no_space-rest :
    (entries es : List EfiBootentry)
    → All (IsNumbered entries) es
    → no_space (join_rest 44 (nums es)) ≡ true
unfolding join_rest no_space
no_space-rest entries [] h = refl
no_space-rest entries (e ∷ es) h =
    no_space-append e.num (join_rest 44 (nums es)) h.0.number.graphic (no_space-rest entries es h.1)

module _ (entries : List EfiBootentry) where
  pub no_space-join_nums :
      (es : List EfiBootentry) → All (IsNumbered entries) es → no_space (join_nums es) ≡ true
  unfolding strjoinv no_space
  no_space-join_nums [] h = ap no_space (join_nums-strjoinv [])
  no_space-join_nums (e ∷ es) h =
      ap no_space (join_nums-rest e es)
      ∙ no_space-append e.num (join_rest 44 (nums es)) h.0.number.graphic
          (no_space-rest entries es h.1)

  pub join_nums-nonempty :
      (e : EfiBootentry) (es : List EfiBootentry) → IsNumber e.num → join_nums (e ∷ es) ≢ []
  join_nums-nonempty e es n z = at e.num n.nonempty (sym (join_nums-rest e es) ∙ z)
    where
      at : (t : Text) → t ≢ [] → t ++ join_rest 44 (nums es) ≢ []
      at [] m q = m refl
      at (c ∷ s) m q = cc

  commas : (es : List EfiBootentry) → All (IsNumbered entries) es → All (Free 44) (nums es)
  commas [] h = tt
  commas (e ∷ es) h = (h.0.number.no_comma, commas es h.1)

  found_again :
      (es : List EfiBootentry)
      → All (IsNumbered entries) es
      → matches (get_efi_entry_by_bootnum entries) (nums es) ≡ es
  unfolding matches
  found_again [] h = refl
  found_again (e ∷ es) h = rw (matches, h.0.found, found_again es h.1) refl

  -- The order that was joined is read again.
  pub matches-join_nums :
      (e : EfiBootentry) (es : List EfiBootentry)
      → All (IsNumbered entries) (e ∷ es)
      → matches (get_efi_entry_by_bootnum entries) (strsplit 44 (join_nums (e ∷ es))) ≡ e ∷ es
  matches-join_nums e es h =
      let joined = join_nums-strjoinv (e ∷ es) in
      ap (λ x. matches (get_efi_entry_by_bootnum entries) (strsplit 44 x)) joined
      ∙ ap (matches (get_efi_entry_by_bootnum entries)) (
          strsplit-strjoinv 44 (nums (e ∷ es)) (commas (e ∷ es) h)
            (λ z. join_nums-nonempty e es h.0.number (joined ∙ z)))
      ∙ found_again (e ∷ es) h

  module _ (P : EfiBootentry → Type 0) where
    get_entry-All :
        (es : List EfiBootentry) (n : Text) (e : EfiBootentry)
        → All P es
        → get_efi_entry_by_bootnum es n ≡ some e
        → P e
    unfolding get_efi_entry_by_bootnum
    get_entry-All [] n e p h = cc
    get_entry-All (x ∷ es) n e p h = elim (Bool-cases (strcmp0_eq (some n) (some x.num))) [
      | inl q ↦ subst P (some-injective x e (rw q at h)) p.0
      | inr q ↦ get_entry-All es n e p.1 (rw q at h)
    ]

    pub find_entry-All :
        (es : List EfiBootentry) (b : Option Text) (e : EfiBootentry)
        → All P es
        → find_entry b es ≡ some e
        → P e
    unfolding find_entry
    find_entry-All [] b e p h = cc
    find_entry-All (x ∷ es) b e p h = elim (Bool-cases (strcmp0_eq (some x.name) b)) [
      | inl q ↦ subst P (some-injective x e (rw q at h)) p.0
      | inr q ↦ find_entry-All es b e p.1 (rw q at h)
    ]

    pub remove_entry-All :
        (es : List EfiBootentry) (b : Option Text) → All P es → All P (remove_entry b es)
    unfolding remove_entry
    remove_entry-All [] b p = tt
    remove_entry-All (x ∷ es) b p = elim (Bool-cases (strcmp0_eq (some x.name) b)) [
      | inl q ↦ rw q p.1
      | inr q ↦ rw q (p.0, remove_entry-All es b p.1)
    ]

    pub matches-All :
        (ns : List Text) → All P entries → All P (matches (get_efi_entry_by_bootnum entries) ns)
    unfolding matches
    matches-All [] p = tt
    matches-All (n ∷ ns) p = elim (Option-cases (get_efi_entry_by_bootnum entries n)) [
      | inl q ↦ rw (matches, q) (matches-All ns p)
      | inr (e, q) ↦ rw (matches, q) (get_entry-All entries n e p q, matches-All ns p)
    ]
