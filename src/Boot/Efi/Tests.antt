-- ===== src/Boot/Efi/Tests.antt =====
-- The output of `efibootmgr` with two entries for slots.
use rauc.Prelude.{
  ◌≡◌, refl, none, some, [], ◌∷◌, ◌++◌, codes, text_eq, strcmp0_eq, strsplit, pieces, has_prefix,
  ok, err, aborted, sym, inl, inr, Bool-cases, List, Text, text_eq_iff, Output, Check, strjoinv,
  if◌then◌else◌,
}
use rauc.Boot.Efi.Read.{lines_of}
use rauc.Boot.Efi.{
  EfiBootentry, take_hex, after_prefix, before_tab, entry_name, entry_of, number_of, no_space,
  order_of, matches, first_match, get_efi_entry_by_bootnum, Bootorder, read_order, parse_bootorder,
  Devices,
}
use rauc.Boot.Efi.Tool.{IsEfibootmgr, Prints}
use rauc.Boot.Tools.{Tools}

abbrev entry_a : EfiBootentry
entry_a = record { num = codes "0001"; name = codes "A" }

abbrev entry_b : EfiBootentry
entry_b = record { num = codes "00AB"; name = codes "B" }

abbrev info : Bootorder
info = record {
  order = entry_a ∷ entry_b ∷ [];
  entries = entry_a ∷ entry_b ∷ [];
  bootnext = none;
  bootcurrent = some entry_a;
}

parsed :
    parse_bootorder (
      codes "BootCurrent: 0001"
      ∷ codes "BootOrder: 0001,00AB,0003"
      ∷ codes "Boot0001* A"
      ∷ (codes "Boot00AB  B" ++ 9 ∷ codes "HD(1)")
      ∷ [])
    ≡ ok info
unfolding parse_bootorder read_order matches first_match entry_of number_of order_of no_space
    entry_name take_hex after_prefix before_tab get_efi_entry_by_bootnum has_prefix strsplit pieces
    strcmp0_eq text_eq
parsed = refl

-- A firmware with both entries in its order, in one of two orders, or with A only.
data Memory : Type 0 where
  a_first b_first only_a : Memory

abbrev order_text : Memory → Text
order_text a_first = codes "0001,00AB"
order_text b_first = codes "00AB,0001"
order_text only_a = codes "0001"

abbrev first_lines : List Text
first_lines = codes "BootCurrent: 0001" ∷ []

abbrev entry_lines : List Text
entry_lines = codes "Boot0001* A" ∷ codes "Boot00AB* B" ∷ []

abbrev show : List Text → Memory → Output
show args w = Output.exited 0 (
    codes "BootCurrent: 0001"
    ++ 10
      ∷ (codes "BootOrder: "
          ++ order_text w
          ++ 10 ∷ (codes "Boot0001* A" ++ 10 ∷ codes "Boot00AB* B")))

abbrev set_to : Text → Memory → Check × Memory
set_to x w =
    if text_eq x (codes "00AB,0001")
    then (Check.success, b_first)
    else if text_eq x (codes "0001")
    then (Check.success, only_a)
    else (Check.check_failed 1, w)

abbrev set_order : List Text → Memory → Check × Memory
set_order (e ∷ f ∷ x ∷ []) w = set_to x w
set_order [] w = (Check.not_started, w)
set_order (e ∷ []) w = (Check.not_started, w)
set_order (e ∷ f ∷ []) w = (Check.not_started, w)
set_order (e ∷ f ∷ x ∷ y ∷ l) w = (Check.not_started, w)

abbrev memory : Tools
memory = record { World = Memory; query = show; update = set_order }

set_to-order :
    (x : Text) (w : Memory) → (set_to x w).0 ≡ Check.success → order_text (set_to x w).1 ≡ x
set_to-order x w h = elim (Bool-cases (text_eq x (codes "00AB,0001"))) [
  | inl p ↦ rw p (sym ((text_eq_iff x (codes "00AB,0001")).0 p))
  | inr p ↦ elim (Bool-cases (text_eq x (codes "0001"))) [
    | inl q ↦ rw (p, q) (sym ((text_eq_iff x (codes "0001")).0 q))
    | inr q ↦ absurd (let z = rw (p, q) at h in cc)
  ]
]

printed : (w : Memory) → Prints memory w (lines_of first_lines (order_text w) entry_lines)
unfolding strsplit pieces
printed a_first = (_, refl, refl)
printed b_first = (_, refl, refl)
printed only_a = (_, refl, refl)

abbrev laws : IsEfibootmgr memory
laws = record {
  before = λ w. first_lines;
  order = order_text;
  after = λ w. entry_lines;
  printed = printed;
  set_order = λ w numbers known h. (refl, set_to-order (strjoinv 44 numbers) w h, refl);
}

abbrev no_devices : Devices Memory
no_devices = record { realpath = λ w d. none; partition = λ w d. err aborted }
