-- ===== src/Progman.antt =====
-- progman/: the loader of driver binaries.
pub mod Elf
