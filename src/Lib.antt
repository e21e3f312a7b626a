-- ===== src/Lib.antt =====
-- A verification library of Mushix, an operating system for x86-64 in Rust.
--
-- The program boots as a UEFI application, takes over the memory map, and runs its drivers as futures
-- on an executor of its own. Modelled here are the parts that carry its logic:
--
--   * Word, Bytes, Bits, Volatile: the machine words. A word of w bits is a natural number below 2 ^ w, and
--     every operator that can wrap has its `% 2 ^ w` written out (Word.antt); bytes and their order
--     (Bytes.antt); `extract_bits` of bits.rs; `write_bits` and `read_bits` of volatile.rs, where a
--     cell is its value.
--   * Uefi, Allocator: `FirstFitAllocator` of allocator.rs. The chain of boxed headers is the list of the
--     headers, each with its address; `provide` carves an allocated block and a padding block from
--     the end of a free block; `alloc_with_options`, `dealloc` and `init_with_mmap` work on the list. The
--     linear search is structural recursion. The children prove the round-up (Pow2), one block (Provide,
--     Request), the list (Blocks, Heap, Safety, Reuse) and the start (Mmap).
--   * Mutex: `try_lock`, `lock` with its ten thousand tries, and threads as a step relation.
--   * Executor: the queue of executor.rs and one turn of `Executor::run`. A task is a parameter, with a
--     poll that gives the world behind it, what it spawned, and the task again when it is pending.
--   * Hpet, Acpi, Pci: the timer's registers; the search of the ACPI tables in a memory that is a function;
--     bus-device-function numbers, and the configuration registers of a device, which is a parameter with
--     the documented behaviour of a base address register as hypotheses (Pci.Bar).
--   * X86: x86.rs. An entry of a page table is its value; a table is the tree of its entries and of the tables
--     that they own (Mapping), and the address of a new table is a parameter. The four nested loops
--     of `create_mapping` are one loop, `fill_table`, at four levels. Segments and Interrupts are the
--     descriptor tables, and what the exception handler decides.
--   * Graphics: graphics.rs on the frame buffer of uefi.rs. Memory is a function from a byte offset to the pixel
--     there, coordinates are signed integers with the wrap-around of `i64` (Prelude/Int.antt), and the font
--     is a parameter. Text has the glyphs, the strings, the text writer and the first picture.
--   * Console: the hex dump of print.rs, as the text that it prints.
--   * Init: the first page tables of init.rs, the end and the size of memory. Uefi also has the iterator
--     over the memory map, the configuration tables and the exit from the boot services.
--   * Xhci: the USB host controller driver of xhci.rs and trb.rs. Trb is the transfer request block, Ring the
--     sixteen blocks of `TrbRing`, Command the ring that the driver fills, Event the ring that the
--     controller fills and the waiters, Regs the registers, ports and doorbells, Context the device
--     contexts, Descriptor the USB descriptors, Control the requests on endpoint 0, Identify and Driver
--     what `run` does with a connected port, Storage its `handle_mass_storage_device`, Scsi the commands of a mass-storage device, with the
--     command block of cbw.rs in Cbw. A ring is a list of blocks with the address of its page; the
--     physical and the virtual address are the same, as the code has it.
--   * Mbr: the analysis of the first sector, whose printed lines are its result.
--
-- A panic, an `Err` and a value are the three constructors of `Result` (Prelude/Results.antt). What the
-- code changes before it returns an error is not kept in the model of an error; the theorems on
-- the rings show that these errors do not come.
--
-- Fuel. `collect` runs on fuel, and one more step than there are descriptors is enough
-- (Xhci.Descriptor.Iterate); `find_table` has at least one step for each entry and one more; a loop over a page table
-- has one for each of the 512 entries, and a loop over the memory map one for each byte. The loops that poll a
-- register or a future read given answers, and their theorems give the fuel that these
-- need. All other loops are structural recursion.
--
-- Parameters. The answers to bulk transfers are the record `Answers`: the controller's events, and
-- what the device sends for a command block. In Control
-- and Driver they depend on all that was sent, as `Device` and `completion`. The task of `run` that polls
-- the event ring is taken to bring each event to its future (Xhci.Event.Waiters has its step). The
-- device behind the configuration registers is `Config`, the firmware's calls are `BootServices`, a task's
-- poll is a function. No model is made of assembly or of the hardware's timing.
--
-- Not modelled: the assembly of x86.rs, the reading of the font file, the macros of print.rs, serial.rs,
-- `attach` and `Controller::new` of xhci.rs, and mmio.rs and pin.rs, which wrap pointers; qemu.rs,
-- test_runner.rs, main.rs and lib.rs, which only call or print.
pub mod Prelude
pub mod Word
pub mod Bytes
pub mod Bits
pub mod Volatile
pub mod Uefi
pub mod Allocator
pub mod Mutex
pub mod Executor
pub mod Hpet
pub mod Acpi
pub mod Pci
pub mod Cbw
pub mod Console
pub mod X86
pub mod Graphics
pub mod Init
pub mod Xhci
pub mod Mbr
