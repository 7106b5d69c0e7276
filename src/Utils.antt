-- ===== src/Utils.antt =====
-- src/utils.c.
pub mod Semver
pub mod Hex
