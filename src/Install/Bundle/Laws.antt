-- ===== src/Install/Bundle/Laws.antt =====
-- What must hold of a bundle before anything is installed from it.
use rauc.Prelude.{List}
use rauc.Slot.{Slot}
use rauc.Manifest.{Manifest}
use rauc.Machine.{Io, SystemConfig, Bundle, Event, mounted}
use rauc.Machine.Hoare.{Hoare}
use rauc.Install.Slots.{InstallArgs}
use rauc.Install.Bundle.Gate.{Has, Opened, Compatible, Gated}

module _ (io : Io) (config : SystemConfig) (args : InstallArgs) where
  open io use {World, custom_handler, bundle_hook, mount_bundle, check_bundle}

  abbrev G : List Event → Type 0
  G = Gated config args

  module _ (bundle : Bundle) (manifest : Manifest) where
    abbrev Ready : List Event → Type 0
    Ready t = Opened config args bundle t × Has (mounted bundle manifest) t × G t

    abbrev Fits : List Event → Type 0
    Fits t = Ready t × Compatible config args manifest t
