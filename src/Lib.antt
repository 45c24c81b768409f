-- ===== src/Lib.antt =====
-- The UteroOS kernel: a model of its C code (src/) and of the assembly around it (asm/), and theorems
-- about them.
--
-- The boot loader enters asm/boot.asm, which turns paging on, and `kmain` is called, which reads the boot loader's information, sets up interrupts,
-- the timer, the serial port, the keyboard and the memory management, prints the date, and waits.
-- Afterwards the kernel runs in its interrupt handlers, which asm/interrupt.asm calls. The parts share the hardware: memory, the
-- answers of the devices that are yet to be read, and a log of what was done at the ports.
--
-- The parts and their files. Each part's file holds its state and its operations under the source's
-- names, and the files below it hold the proofs.
--   Base               numbers of a machine's width, bits, lists, memory as a function from
--                      addresses to bytes, and texts as lists of bytes
--   Libk               src/libk: `memcpyk`, `strrev`, `itoa`, `ulltoa` and `vprintfk`; a string is
--                      the list of its bytes without the terminator
--   Core/Ports         src/core/ports.c: reads and writes of ports, and computations that use them
--   Core/Idt, Core/Isr src/core/idt.c and isr.c: the table of gates, the controllers, the handlers
--   Core/Timer         src/core/timer.c and check.c
--   Core/Cmos          src/core/cmos.c
--   Core/Boot          src/core/boot.c and src/include/core/boot.h, on the bytes of memory
--   Drivers            src/drivers: the screen, the serial ports, the keyboard
--   Mmu/Mmap           src/mmu/mmap.c: the memory map and the allocator of frames
--   Mmu/Paging         src/mmu/paging.c, on the bytes of memory in the recursive window
--   Mmu/Area           src/mmu/mmu.c, and how the loops of mmap.c meet the entries in memory
--   Kernel             src/kernel/kmain.c and panic.c: State has the whole state as one record and
--                      each part's operation on its share of it, Panic the panic, Dispatch the
--                      calls of the handlers, Start the start, Reach the states behind it,
--                      Debug the macro of src/include/core/debug.h and the reading of the boot
--                      loader's information in the build that uses it
--   Asm/Boot           asm/boot.asm: the checks, the page tables and the control registers, and how
--                      the processor translates addresses through those tables
--   Asm/Cpu            the instructions of asm/interrupt.asm on a processor with the kernel's memory
--   Asm/Interrupt      asm/interrupt.asm: the entry points of exceptions and interrupts, from the
--                      interrupted code to the C functions and back
--   Examples           the theorems at concrete inputs
--
-- Conventions. Numbers are natural numbers, and each conversion to a width is written out as a
-- remainder (`u8`, `u16`, `u32`, `u64`). `none` is what the C language leaves undefined (an access
-- outside of an array, a division by zero, an argument that is missing), an input that ends, or
-- fuel that runs out. Fuel: the loops of `itoa` and `ulltoa` have 32 and 64 rounds, one for each
-- bit, which is enough in every base from 2 on; the inner loop of `mmap_read` has as many as an
-- entry has pages, and one more; the loop of `vprintfk` has as many as its format has characters.
-- The recursion of `mmap_allocate_frame`, the loops over tags and entries, and the loops that wait
-- for a device take their fuel as an argument, and the theorems say how much is enough. The
-- addresses of the entry points, the texts of the build and the places that a panic names are
-- parameters. The allocator works on the list of entries that memory holds when `mmu_init` is
-- called.
--
-- Not modelled: the table of segments of asm/boot.asm, asm/long_mode_init.asm and
-- asm/multiboot_header.asm, which are constants without a state here, the instructions that have no
-- state here (`lidt`, `invlpg`, `hlt`), the faults that `iretq` itself can raise, the stack of
-- asm/boot.asm and the stack that a C function uses, the calls of the macro of
-- src/include/core/debug.h, which are nothing unless ENABLE_KERNEL_DEBUG is set (the macro itself
-- is modelled, and its calls in src/core/boot.c), the Crystal entry src/kernel/main.cr, the
-- compiler under crystal-0.24.2/, and the C library's headers, whose `strlen` and argument lists
-- are taken as lists. The C functions' accesses are not translated by the page tables, except where
-- Asm/Boot/Seen says so. An interrupt arrives between two statements of the start, in the wait of
-- the check or in the loop behind the start, and none inside a statement or a handler.
pub mod Base
pub mod Libk
pub mod Core
pub mod Drivers
pub mod Mmu
pub mod Kernel
pub mod Asm
pub mod Examples
