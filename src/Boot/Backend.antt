-- ===== src/Boot/Backend.antt =====
-- The four operations of a boot loader backend, and what the rest of the program relies on.
use rauc.Prelude.{◌≡◌, ◌≢◌, Bool, true, false, Result, ok}
use rauc.Slot.{Slot}

-- The functions of one file of src/bootloaders/.
pub record Backend (World : Type 0) : Type 0 where
  pub get_state : Slot → World → Result Bool
  pub set_state : Slot → Bool → World → Result (Unit {0}) × World
  pub get_primary : World → Result Slot
  pub set_primary : Slot → World → Result (Unit {0}) × World

-- The contract of a backend, for the worlds and the slots that it is made for: a slot that was
-- made primary is the primary one and good, and a slot that was marked bad is neither.
pub record IsBackend {World : Type 0} (b : Backend World) (Fits : World → Slot → Type 0)
    : Type 0 where
  pub primary_read :
      (s : Slot) (w : World)
      → Fits w s
      → (b.set_primary s w).0 ≡ ok tt
      → b.get_primary (b.set_primary s w).1 ≡ ok s
  pub primary_good :
      (s : Slot) (w : World)
      → Fits w s
      → (b.set_primary s w).0 ≡ ok tt
      → b.get_state s (b.set_primary s w).1 ≡ ok true
  pub bad_read :
      (s : Slot) (w : World)
      → Fits w s
      → (b.set_state s false w).0 ≡ ok tt
      → (b.get_state s (b.set_state s false w).1 ≢ ok true)
        × (b.get_primary (b.set_state s false w).1 ≢ ok s)
