-- ===== src/Boot.antt =====
-- src/bootchooser.c and src/bootloaders/: the boot loader backends.
pub mod Tools
pub mod Uboot
pub mod Names
pub mod Backend
pub mod Grub
pub mod Barebox
pub mod Custom
pub mod Efi
pub mod Chooser
