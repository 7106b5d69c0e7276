-- ===== src/Lib.antt =====
-- The verification library of RAUC, the update client for embedded systems.
--
-- RAUC installs a bundle of images to the slots of a system that are not running, and tells the
-- boot loader which slots may be started. This library models the decisions of an installation
-- and of marking slots as functions, and shows what they guarantee together.
--
-- The parts, by file and by the source that they follow:
--   Prelude and its children: bytes and strings (`g_strcmp0`, `g_strsplit`, `g_strjoinv`,
--     `g_strchomp`, `g_ascii_strtoull`, `%x`), results with error codes, lists, Boolean tests.
--   Slot: include/slot.h and src/slot.c. The hash table of the slots is a list in the order of
--     iteration, and a pointer to a slot is its name. The status of a slot is kept apart, by name.
--   Config/Links: the parent links, at the end of `parse_slots` and in `fix_grandparent_links`
--     of src/config_file.c.
--   Config/Formats: `parse_bundle_formats` of the same file.
--   Boot/Tools: the child processes that the boot loader backends start, as an interface: a process
--     that reads a world, or changes it.
--   Boot/Uboot, Boot/Grub, Boot/Barebox, Boot/Efi, Boot/Custom: the files of src/bootloaders/.
--     What fw_printenv, grub-editenv, barebox-state, efibootmgr and the program of the system
--     document is a record of laws for each; the output is parsed byte by byte. Boot/Backend is the
--     contract of a backend, and the modules named Contract show which backends keep it.
--   Boot/Chooser: src/bootchooser.c, which calls the backend of the configured boot loader.
--   Manifest: include/manifest.h and the table of handlers in src/update_handler.c.
--   Install/States, Install/Select, Install/Plans: the parts of src/install.c that decide what is
--     installed where: `determine_slot_states`, `determine_boot_states`,
--     `determine_target_install_group`, `r_install_make_plans`, `pre_install_checks`,
--     `get_boot_mark_slot`.
--   Machine: what an installation acts on. `Io` is the interface to the boot loader, the status
--     file, the slot handlers and the bundle; `Run` is the state, with the actions that were taken
--     and whether they succeeded, the last one first; a `Step` is a function that may
--     fail. Machine/Hoare has its proof rules.
--   Mark: src/mark.c, with `r_mark_good`, `r_mark_bad`, `r_mark_active` and `mark_run`.
--   Install/Slots: `update_slot_status` and `handle_slot_install_plan` of src/install.c.
--   Install/Default: `launch_and_wait_default_handler` of src/install.c.
--   Install/Bundle: `do_install_bundle` of src/install.c with its checks.
--   Verity: the arithmetic of src/verity_hash.c, on the numbers of 64 bits with their wrap-around.
--   HashIndex: `r_hash_index_get_chunk` of src/hash_index.c. The table is two functions on numbers, and
--     reading and hashing a chunk are parameters.
--   Manifest/Checks: the checks of src/manifest.c on a manifest that was loaded.
--   Partition: the choice of the inactive boot partition in src/mbr.c, on addresses of 64 bits. The
--     size of the device and its first sector are parameters.
--   StatusFile: the slot statuses of src/status_file.c, in a group of a key file and in the central
--     file. What GLib writes for numbers and times is a parameter.
--   Utils/Semver, Utils/Hex: the versions and the hexadecimal encoding of src/utils.c.
--   Samples: a system with two root file systems and an application slot for each, on which the
--     modules named Tests apply the theorems.
-- A module named Laws, or for what it proves, holds the theorems on its parent.
--
-- Loops are recursion on lists. `r_slot_get_parent_root` runs on fuel: one more than the number of
-- slots. On a table that `fix_grandparent_links` accepted two steps are enough. The loop of
-- `fix_grandparent_links` has the source's own limit of 100 steps. Numbers are printed with room
-- for the digits of 32 bits. The loops of the hash tree's arithmetic have one step for each of 64
-- bits, which is when the source's own conditions end them. The binary search of the hash index has
-- one step for each entry, which its completeness shows to be enough.
--
-- An error is its code; the messages, the logging and the progress are left out. `g_error` and a
-- failed assertion are the error `aborted`. Memory management and the D-Bus and command line front
-- ends are not modelled, nor are the bundle format and its
-- signatures, the status files in the slots, the artifact repositories, adaptive updates, and the
-- bodies of the slot handlers, which are calls of other tools.
pub mod Prelude
pub mod Slot
pub mod Config
pub mod Boot
pub mod Samples
pub mod Manifest
pub mod Install
pub mod Machine
pub mod Mark
pub mod HashIndex
pub mod Partition
pub mod StatusFile
pub mod Utils
pub mod Verity
