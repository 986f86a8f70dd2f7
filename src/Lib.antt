-- ===== src/Lib.antt =====
-- Verification of SeshOS, a small x86-64 kernel.
--
-- The kernel starts in kernel/init.c. Its parts that are modelled here call each other as follows:
-- the string functions (kernel/string.c) and the memory functions (kernel/memory/mem.c) stand at the
-- bottom; the heap (kernel/memory/malloc.c) copies with `memcpy`; the terminal (kernel/tty.c,
-- kernel/video/renderer.c) writes through a pointer either to the debug port
-- (kernel/serial/comout.c) or to the framebuffer (kernel/video/fbcon.c), which hands escape
-- sequences to kernel/video/ansi.c, and that one searches them with the string functions.
--
-- Base: native numbers with the casts of C written out, lists, integers, the flat memory, 64-bit
-- words in memory, and the `Run` monad of code that may fault or run out of fuel.
-- Mem: kernel/memory/mem.c (`memset`, `memcpy`, `memcmp`, `getMemSize`, `numPages`); Mem/Copy,
-- Mem/Compare and Mem/Pages are its proofs.
-- Str: kernel/string.c; Str/Split is `strsplit` and Str/Hex is `to_hstring`.
-- Heap: kernel/memory/malloc.c, with the block headers in the flat memory; Heap/Blocks has the
-- abstract heap, a list of blocks, and Heap/Usage sequences of calls.
-- Tty: the globals of kernel/tty.c, kernel/video/ansi.c and kernel/video/fbcon.c in one record;
-- Tty/Com is kernel/serial/comout.c, Tty/Colors the colour codes, Tty/Ansi `TTY_HandleEsc`,
-- Tty/Glyph the drawing loops of `FBCON_Write`, and Tty/FbCon the rest of it with `putchar`.
-- Ramfs: kernel/fs/ramfs.c; Ramfs/Size, Ramfs/Headers and Ramfs/Lookup are `getsize`, `parse` and
-- `readFile`, and Ramfs/Listing is `ls`.
-- Log: kernel/log.c; Log/Pieces has its texts as bytes and colour sequences, and Tty/FbCon/Markup
-- shows such texts on the console; Log/Serial is the log over the debug port.
-- Interrupts: kernel/idt/interrupts.c, reached through the gates of Idt.
-- Idt: kernel/idt/idt.c. Keyboard: kernel/userinput/keyboard.c. Rtc: kernel/time.c.
-- Boot: kernel/boot/checkLoader.c, with its log calls in Boot/Logging. Pcspk: kernel/audio/pcspk.c.
-- Video: kernel/video/video.c, with the functions of the cursor and `Clear` in Video/Cursor.
-- Pci: kernel/pci/pci.c, with kernel/pci/pciDesc.c in Pci/Names and Pci/Printing.
-- Sata: kernel/disks/sata.c; Sata/Setup has `Configure`, `StopCMD`, `StartCMD` and the driver's end,
-- Sata/Filled the memory that a read command fills in.
-- Acpi: kernel/acpi/acpi.c; Acpi/Logging has the texts of its messages and sends them to the log.
-- Start: `init` of kernel/init.c, which composes the parts, with kernel/boot/limine and
-- kernel/gdt/gdt.c.
-- Tests: concrete runs.
--
-- Loops over C strings take fuel: the length of the string and one more is always enough, and the
-- theorems say so. `aligned_ptr` needs 4 rounds. A backspace on the framebuffer calls `putchar`, so
-- `FBCON_Write` has a depth of 2. Addresses and bytes are numbers, and a `char` is a byte from 0 to
-- 255 where only its bits count.
--
-- Devices are functions from the number of a reading to its answer, and ports are lists of the bytes
-- sent. The AHCI driver's wait for a port has a limit of its own, a million readings; its waits for a
-- command and for a port's engine take fuel.
--
-- Not modelled: the inline assembly (ports, tables, `hlt`), the font, which is a binary file, the
-- printf library in kernel/video/printf.c, which is third-party code, and kernel/panic.c and
-- kernel/kernel.c, which print and halt. Of kernel/disks/sata.c the function `AHCIDriver_Init` is not
-- modelled: it walks records in memory that comes uncleared from `malloc`. The composition in Start
-- therefore stops at the first AHCI controller. It has the texts of the boot loader's check and of the
-- PCI walk; the other texts that its parts log are left out there. `log` itself is modelled, and so
-- are the texts of the ACPI search.
pub mod Base
pub mod Mem
pub mod Str
pub mod Heap
pub mod Tty
pub mod Log
pub mod Ramfs
pub mod Idt
pub mod Keyboard
pub mod Rtc
pub mod Pci
pub mod Sata
pub mod Acpi
pub mod Start
pub mod Interrupts
pub mod Boot
pub mod Pcspk
pub mod Video
pub mod Tests
