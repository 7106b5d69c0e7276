-- ===== src/Boot/Efi/Contract.antt =====
-- The EFI backend keeps the contract of a backend, with a boot order that is set for good.
use rauc.Prelude.{◌≡◌, some, List, [], ◌∷◌, ◌++◌, Text, codes, strsplit, All, Bool, ok}
use rauc.Slot.{Slot}
use rauc.Boot.Tools.{Tools, BootConfig}
use rauc.Boot.Efi.{
  EfiBootentry, entry_of, matches, get_efi_entry_by_bootnum, remove_entry, Bootorder, join_nums,
  new_order, Devices,
}
use rauc.Boot.Efi.Read.{info_of}
use rauc.Boot.Efi.Numbers.{IsNumbered}
use rauc.Boot.Efi.Tool.{IsEfibootmgr, HasEntry}

module _ (t : Tools) (laws : IsEfibootmgr t) (config : BootConfig) (devices : Devices t.World) where
  open t use {World, update}

  module _ (w : World) (s : Slot) (fits : HasEntry t laws config.slots w s) where
    open fits use {name}

    abbrev before : List Text
    before = laws.before w

    abbrev after : List Text
    after = laws.after w

    abbrev order : Text
    order = laws.order w

    abbrev others : List Text
    others = before ++ after

    abbrev entries : List EfiBootentry
    entries = matches entry_of others

    abbrev start : Bootorder
    start = info_of others (matches (get_efi_entry_by_bootnum entries) (strsplit 44 order))

    module _ (prepend : Bool) (es : List EfiBootentry)
        (made : new_order (some name) prepend start ≡ ok es)
        (numbered : All (IsNumbered entries) es) where
      abbrev set_args : List Text
      set_args = codes "efibootmgr" ∷ codes "--bootorder" ∷ join_nums es ∷ []

    abbrev kept : List EfiBootentry
    kept = remove_entry (some name) start.order
