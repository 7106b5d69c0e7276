-- ===== src/Boot/Efi/Tool.antt =====
-- What `efibootmgr` documents, and the firmware that src/bootloaders/efi.c is made for.
use rauc.Prelude.{
  ◌≡◌, ◌≢◌, none, some, List, [], ◌∷◌, ◌++◌, Text, codes, strsplit, strjoinv, All, Output, Check,
}
use rauc.Slot.{Slot, Slots}
use rauc.Boot.Tools.{Tools}
use rauc.Boot.Names.{find_by_bootname}
use rauc.Boot.Efi.{
  entry_of, number_of, order_of, matches, first_match, get_efi_entry_by_bootnum, find_entry,
}
use rauc.Boot.Efi.Read.{lines_of, order_line}
use rauc.Boot.Efi.Numbers.{IsNumbered}
use rauc.Boot.Efi.Order.{IsOnce}

-- The tool prints these lines.
abbrev pub Prints : (t : Tools) → t.World → List Text → Type 0
Prints t w ls =
    (stdout : Text) × (t.query (codes "efibootmgr" ∷ []) w ≡ Output.exited 0 stdout)
    × (strsplit 10 stdout ≡ ls)

-- What `efibootmgr` documents. It prints the boot order on one line, with lines before and after it.
-- Where setting the boot order succeeds, that line has the numbers that were given, which are those of
-- entries, and the other lines are as before.
pub record IsEfibootmgr (t : Tools) : Type 0 where
  pub before : t.World → List Text
  pub order : t.World → Text
  pub after : t.World → List Text
  pub printed : (w : t.World) → Prints t w (lines_of (before w) (order w) (after w))
  pub set_order :
      (w : t.World) (numbers : List Text)
      → All
          (λ n. get_efi_entry_by_bootnum (matches entry_of (before w ++ after w)) n ≢ none)
          numbers
      → (t.update (codes "efibootmgr" ∷ codes "--bootorder" ∷ strjoinv 44 numbers ∷ []) w).0
        ≡ Check.success
      → let w' =
          (t.update (codes "efibootmgr" ∷ codes "--bootorder" ∷ strjoinv 44 numbers ∷ []) w).1 in
        (before w' ≡ before w) × (order w' ≡ strjoinv 44 numbers) × (after w' ≡ after w)

-- A firmware with one line for a boot order, an entry for the slot and none for the next boot only. The
-- numbers of the entries differ, and the slot is the first of its bootname.
pub record HasEntry (t : Tools) (laws : IsEfibootmgr t) (slots : Slots) (w : t.World) (s : Slot)
    : Type 0 where
  pub name : Text
  pub readable : order_of (order_line (laws.order w)) ≡ some (laws.order w)
  pub only_before : All (λ l. order_of l ≡ none) (laws.before w)
  pub only_after : All (λ l. order_of l ≡ none) (laws.after w)
  pub numbered :
      All
        (IsNumbered (matches entry_of (laws.before w ++ laws.after w)))
        (matches entry_of (laws.before w ++ laws.after w))
  pub no_next : first_match (number_of (codes "BootNext: ")) (laws.before w ++ laws.after w) ≡ none
  pub named : s.bootname ≡ some name
  pub there : find_entry (some name) (matches entry_of (laws.before w ++ laws.after w)) ≢ none
  pub first : find_by_bootname slots name ≡ some s
  pub once : IsOnce name (
      matches
        (get_efi_entry_by_bootnum (matches entry_of (laws.before w ++ laws.after w)))
        (strsplit 44 (laws.order w)))
