-- ===== src/Config.antt =====
-- src/config_file.c: the parent links of the slots, and the bundle formats.
pub mod Links
pub mod Formats
