-- ===== src/Boot.antt =====
-- boot/: what the boot loader tells the kernel.
pub mod Tags
