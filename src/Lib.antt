-- ===== src/Lib.antt =====
-- oldasternix: a small kernel for the i686, and its C library.
--
-- The program and its model. All paths are from the repository's root.
--
-- Prelude, with Prelude/Lists, Options, Int, Word, Text, Bits and Tests: shared names, lists and
-- tests over native numbers, C's `int` results as signed numbers (`pos`, `neg`), machine words by
-- remainders (u8, u16, u32), the bits of a byte (Prelude/Bytes), and laws of the bit operations.
--
-- libc/string.c. Libc/Memory is byte-addressed memory, a function from addresses to bytes.
-- Libc/Block has memset, memcpy and memmove; Libc/Search memchr and memcmp; Libc/Strings all other
-- functions, with their laws in Libc/Strings/Copy and Scan. A pointer is an address; a null
-- pointer is `none`. The code walks along a string to its zero byte, wherever that is, so these
-- functions take fuel: one round for each byte up to the zero byte, hence more fuel than the
-- string is long is enough.
--
-- kernel/drivers/driver.c, kernel/include/drivers/driver.h and major.h. Kernel/Device has device
-- numbers, Kernel/Drivers the two tables of drivers (records of functions on the machine's state)
-- and the calls that go through them. Kernel/Initcalls has the initcalls that register the
-- drivers and the tables that they leave; Initcalls/Devices is what callers see behind them.
--
-- Kernel/Machine is the state that the drivers share: memory, the I/O bus and the static variables
-- of the files below. Each operation is a function from this state to a result and the new state.
--
-- kernel/drivers/char/memdev.c and kernel/arch/i686/drivers/char/memdev_x86.c. Kernel/Memdev has
-- the memory devices, Kernel/Ports (kernel/arch/i686/include/x86/pio.h) the I/O bus as a list of
-- events, and Ports/Device /dev/port. What the hardware answers at a port is a parameter.
--
-- kernel/drivers/block/ramdisk.c. Kernel/Ramdisk has the table of RAM disks; the blocks are in
-- memory.
--
-- kernel/drivers/kb.c. Kernel/Keyboard has the modifier byte, the keymap and the queue of typed
-- characters, an array in memory; Keyboard/Queue reads it as a list.
--
-- kernel/arch/i686/drivers/tty.c. Kernel/Console has the VGA text buffer in memory, the cursor and
-- the serial ports; Console/Typing compares it with an abstract screen of 2000 cells.
--
-- kernel/drivers/char/tty.c. Kernel/Tty sends a minor number to the console or a serial port.
--
-- kernel/arch/i686/interrupts.c. Kernel/Interrupts has the interrupt table and the events by which
-- the two interrupt controllers are set up and their masks changed; the addresses that the
-- assembly provides are arguments. Interrupts/Exceptions has the handlers of exceptions, and
-- Exceptions/Dump what they print.
--
-- kernel/panic.c. Kernel/Panic has `panic`; its result is the state in which it halts.
--
-- kernel/arch/i686/boot/boot1.c. Kernel/Boot has `hlinit` over the state of the whole kernel,
-- which with what the loader, the linker and `malloc` provide is in Boot/State; its last loop runs
-- for a number of rounds. Boot/Info has the loops over the boot information, which take fuel: a
-- round for each tag, and 2^32 for the regions of a memory map, which are fewer. Boot/Layout
-- describes the information as a list of tags, in the layout of the vendored header; Boot/Regions
-- and Parse compare the loops with it, Boot/Maps is about missing tags, Boot/Reserved about the
-- frames handed out afterwards, Boot/Started about the initcalls, and Boot/Echo about the last
-- loop, over Tty/Echo.
--
-- libc/stdio.c. Libc/Stdio has `printf`, which prints on the console; a format and its arguments
-- are lists. The loop over the format has one more round of fuel than the format is long, and each
-- round reads a character at least; an `int` is its 32-bit pattern. The digits of a number take 32 rounds at most. Stdio/Pieces
-- describes formats by their pieces and Stdio/Print compares `printf` with it; Stdio/Digits is
-- about the digits of a number, Stdio/Show about the display.
--
-- kernel/arch/i686/drivers/ps2_kb.c. Kernel/Ps2 has the interrupt handler, Ps2/Keycodes the
-- tables, Ps2/Controller the polling loops and the setup, which take fuel: the hardware decides
-- how long they run. Controller/Replies says which bytes the hardware owes the driver. Ps2/Decode describes what a keyboard sends for each key; Ps2/Invariant is
-- about any bytes.
--
-- kernel/arch/i686/mem.c. Kernel/Frames has the bitmap of physical frames; Frames/Marks reads it
-- as a set. The bitmap has 65535 bytes, and an access behind them, which the source does not
-- prevent, gives no result. The loops take fuel, of which 2^20 rounds are enough, one for each frame.
-- Frames/Regions is about what boot marks, Frames/Alloc and Choice about the frame that is handed
-- out. Kernel/Paging has the page tables as words of physical memory, reached through the page
-- directory as the processor does; the cache of translations is left out. Its searches take fuel,
-- one round for each page looked at. Paging/Free is about that search, Paging/Mapped about what is
-- mapped.
--
-- libc/arch/i686/malloc.c. Libc/Heap has `malloc` and `free` on headers by their address;
-- Heap/Search is about the block that is taken, Heap/Blocks compares both with a list of
-- blocks. The search takes fuel, one round for each block.
--
-- kernel/fs/tmpfs.c, over kernel/include/fs.h. Kernel/Tmpfs has inodes at addresses, directories
-- as lists of entries, and the operations of `tmpfs_driver`, of which Tmpfs/Calls has reading and
-- writing by the kind of inode; Tmpfs/Chain the blocks of a file and the loops over them;
-- Tmpfs/FileData reading and writing of a regular file. A call on a device's inode goes through
-- the driver tables. Tmpfs/Chain keeps, besides the blocks, whether the last pointer to a next
-- block holds a stray value; following it gives `none`. The loops take fuel: `find_blk` one more
-- than the quotient of the position by 4096, the loops over blocks two more than the quotient of
-- the count. Each round goes 4096 bytes further, so this is enough.
--
-- Widths. `size_t`, pointers and `int` are 32 bits, `off_t` is 64 bits, `char` is signed. An
-- addition or product that the code stores in a machine word is taken modulo its width; a loop
-- over memory is taken not to pass the end of the address space.
--
-- Not modelled: what `malloc` returns to tmpfs (a new address or block is a parameter there), the
-- 16- and 32-bit port operations of kernel/arch/i686/include/x86/pio.h, which have no caller, the
-- assembly files, and the vendored kernel/include/vendor/grub/multiboot2.h, but for the constants
-- and offsets in Boot/Info.
pub mod Prelude
pub mod Libc
pub mod Kernel
