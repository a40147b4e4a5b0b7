-- ===== src/Lib.antt =====
-- WolfOS is a 32-bit x86 kernel. This library models its logic: what is computed and stored, with
-- machine words as numbers that wrap and memory as explicit state. Instructions, ports and devices
-- are left out, or are a parameter of what uses them.
--
-- Parts and their files:
--
-- Base: numbers, words, bit operations, lists and little-endian memory.
-- Mm/Kalloc: mm/kalloc.c. The state Kalloc holds the globals of the file, the block structures by
-- address and the bytes that are handed out. mkblock, cut_block, ksmalloc, kmalloc, kamalloc, kfree,
-- kmarkunusable and init_kallocator are commands on it, which can fault at a pointer to no block.
-- A chain of structures stands for a list of cells (Chain), on which the commands are described; Init
-- is about the first list, and RoundTrip about kmalloc and kfree together.
-- Mm/MemoryMap: mm/mem.c, init_memory_manager, which gives the allocator its memory; Handover follows
-- the map to the allocator's first list.
-- Console/Numbers and Console/Printf: the printers of console/console.c, as the characters that they
-- hand to putchar.
-- Drivers/Pci: drivers/pci.c; the ports are the parameter Ports. Names and Subclasses are the tables of
-- drivers/pci_names.c.
-- Boot/Tags: boot/bootscheme.c, init_boot.
-- Drivers/Framebuffer: drivers/BootloaderFB/main.c, with the kernel's memset and memmove of
-- Util/Strings.
-- Drivers/Model: drivers/drivermodel.c on the list of drivers: find_driver, in Register the entry of a
-- driver and in Devices the scan of the buses, with Offering for its loop over the drivers. The functions of a loaded driver are parameters.
-- Drivers/Ide: drivers/IDE. Probe is init_internal of main.c on the registers of util.c; the ports and
-- the allocator are the parameter Kernel. A poll takes rounds, and none is a drive that stays busy.
-- Drivers/Ehci: drivers/USB_EHCI. Bind is bind_device_pci of main.c on the accesses of the parameter
-- EhciKernel; a poll takes rounds, and none is one that does not end. Schedules is about the
-- lists that it makes, on a memory of words (Words).
-- Interrupts: interrupts/idt.c as the writes to the ports and the changes of the descriptor table, and
-- the handlers on a state of ticks, port writes and screen text. Stubs and Gates are the tables of
-- interrupts/idtstubs.h, Names that of interrupts/intnames.h; Dispatch follows an interrupt to its
-- handler, and Pic drives a model of the controllers with the writes.
-- Console/Screen: the functions of console/console.c that change the text screen, without a graphics
-- driver; the rows are moved by the routines of Util/Strings that the features of the processor choose.
-- Console/Buffer: add_entry, putchar and init_console of console/console.c, on the list of entries from
-- the last one on. The allocator and the port of an emulator are the parameter Kernel.
-- Console/Graphics: the functions of console/console.c that draw through a graphics driver, which is the
-- parameter GraphicsDriver; OnFramebuffer puts Drivers/Framebuffer in its place. Redraw is flushline and
-- redraw, where an access behind the end of the line's array is a fault.
-- Progman/Elf: progman/elf.c. Symbols has the table of the kernel's functions, whose addresses are a
-- parameter, Relocate the relocations and Load load_driver_bin; Extent, Relocated, Placed and Accepted
-- are about them, and Format says what an entry of the relocation table asks for.
-- Util/Division: udivmod64 of util/earlyutil.c, which print_uint64 calls.
-- Util/Strings: util/strings.c, on a memory of bytes; Blocks holds the routines that copy blocks of 16
-- bytes, which Upwards and Downwards are about; Compare is about strcmp and strlen.
-- Util/Gdt: util/gdt.c.
-- Util/Ticks and Util/Early: wait, and the output before there is a console, of util/earlyutil.c. A wait
-- goes over the interrupts that come between the test of the time and hlt, and during hlt, each handled
-- as in Interrupts.
-- Util/Cpu: util/cpuid.c; the instruction is the parameter Processor.
--
-- Bounds. A walk of the block list takes fuel, one round for each block and one more. The call of
-- kmalloc inside mkblock is given a depth of 2: the outer call resets the count of structures on
-- the page, so that the inner one allocates none. A printer of a w-bit number takes w rounds, since
-- every base from 2 on halves the number. The loop that offers a device to the drivers takes rounds;
-- Drivers/Model/Binding says how many are enough, and when none are. The polls of the IDE and EHCI
-- drivers take rounds, which hardware that answers keeps within. A wait is given the interrupts to come.
--
-- Not modelled: the structures of the allocator and the bytes that it hands out are kept apart,
-- though they are one memory; the boot map is read from a memory that the allocator does not write.
-- The loader reads the header and the sections of a binary from the memory as it was before the load,
-- so an image that the allocator puts on top of the binary is left out; the relocations are read from
-- the memory that they write to. The records of the four IDE devices are kept apart, which is so if
-- the allocator gives none of them the address 0.
-- kernel_main of main.c, which calls the parts in turn, is left out, and so are hexdump of
-- console/console.c, which nothing calls, and the instructions that start the FPU in util/cpuid.c.
mod Base
pub mod Util
pub mod Console
pub mod Mm
pub mod Drivers
pub mod Interrupts
pub mod Progman
pub mod Boot
