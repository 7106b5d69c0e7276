-- ===== src/Install.antt =====
-- src/install.c: the installation of a bundle.
pub mod States
pub mod Select
pub mod Plans
pub mod Slots
pub mod Default
pub mod Bundle
