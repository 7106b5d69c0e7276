-- ===== src/Install/States/Tests.antt =====
-- The states of the slots of a small system.
use rauc.Prelude.{Option, none, Text}

abbrev no_links : Text → Option Text
no_links d = none
