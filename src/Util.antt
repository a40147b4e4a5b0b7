-- ===== src/Util.antt =====
-- util/: the routines that every other part of the kernel calls.
pub mod Gdt
pub mod Division
pub mod Strings
pub mod Early
pub mod Ticks
pub mod Cpu
pub mod Tests
