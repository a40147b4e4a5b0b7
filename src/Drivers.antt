-- ===== src/Drivers.antt =====
-- drivers/: the configuration space of PCI, the driver model, and the drivers.
pub mod Pci
pub mod Model
pub mod Framebuffer
pub mod Ide
pub mod Ehci
