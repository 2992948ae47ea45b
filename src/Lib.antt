-- ===== src/Lib.antt =====
-- ZOSys: a model of the kernel of a small Unix-like system for the Z180, in C, and what is proved
-- of it.
--
-- The parts and their files:
--   CircularBuffer   src/circular_buffer.c, include/circular_buffer.h. `put`, `get`, `is_full`
--                    and `space_left` are `circular_buffer_put` and so on. `Fifo` is the
--                    bounded queue that a client may rely on, `Valid` the representation
--                    invariant, `Refine` the relation of the two.
--   Mem.Pages        src/mem.c, the page allocator. `alloc_page` is `mem_alloc_page`, and so on,
--                    on the 16 words of `page_usage_map`. `Used` reads a map as a set of pages,
--                    `Loops` is about the searches, `Single` about pages and `Blocks` about
--                    page blocks.
--   Process          src/process.c, include/process.h: `switch`, `schedule` and `tick` are
--                    `process_switch`, `process_schedule` and `process_tick`. `Queue` is the
--                    policy over plain lists, `Valid` the invariant, `Schedule` and `Tick` the
--                    theorems. `Life` has `process_destroy`, `sys_waitpid` and `sys_exit`,
--                    `Reap` and `Waitpid` what is proved of them. `Create` has the whole state
--                    of the kernel, `process_new` and `process_init`, `Clone` the loops of
--                    `process_clone_files`, `Fork` has `sys_fork`. `Clone.Undo` and
--                    `Clone.Whole` are about a clone that fails, `Fork.Stack` is about the stack
--                    of the child, `Fork.Outcome`, `Fork.Forked` and `Fork.Result` about the ends
--                    of `sys_fork`.
--   Sync             src/mutex.c, src/semaphore.c, src/block_buf.c, src/spinlock.c. A call that
--                    may sleep is modelled by one pass of its loop: it returns, or it leaves
--                    the caller asleep and another process running. `Sleep` says what that does
--                    to the scheduler. `Spinlock` is a step relation, an instruction at a time.
--   File             src/file.c, src/vfs.c, src/device.c with their headers. `Count` has the
--                    reference counts, `Vfs` the mount table, `Device` the driver table, `Pipe`
--                    the loops of `pipe_read` and `pipe_write`, `Dispatch` the calls by type of
--                    file, `Calls`, `PipeCall`, `Transfer` and `ReadDir` the system calls. `PipeWrite` is
--                    about `sys_write`. `Refs` is the invariant of the reference counts,
--                    `Release`, `Close` and `Dup` keep it, `Tables` is about the searches.
--   Mem.Dma          src/dma.c: `dma_memcpy` over a controller that is an interface.
--   Mem.Copy         the `mem_memcpy_*` of src/mem.c, on physical memory.
--   Mem.User         the user buffer of src/mem.c and the checks of a process' strings and vectors.
--                    `Strings` and `Vectors` say what these find, `Empty` what a copy of no
--                    bytes does.
--   Spi, Sd          src/spi.c and src/dev_sd.c, over the clocked serial port as an interface.
--                    `Sd.Start` is `dev_sd_init`, `Blocks` has the commands that move a block,
--                    `Transfer` `sd_read` and `sd_write`, over any two functions that read and
--                    write a block; `Card` is what `Reads` and `Writes` rely on in these. `Wire`
--                    is the interface of a card that follows the SPI protocol, from which the
--                    driver's own commands fulfil `Card`; `Simulated` is such a card.
--                    `Answers`, `BlockReads` and `BlockWrites` are about the read and the write
--                    of a block, by what the card sends.
--   Asci             src/dev_asci.c: the two serial ports. `Events` is what can happen to port 0,
--                    `Sends` and `Drains` are about what it sends.
--   Flash            src/dev_flash.c, over the bus to the chip. `Chip` is the interface of a chip by
--                    the commands of its data sheet,
--                    `Writes` and `RoundTrip` are the theorems.
--   Fs               src/fs_initrd.c (`Initrd`), src/fs_dev.c (`Dev`), and the `file_init_*` of
--                    src/file.c. `Names` is about directories, `Reads` about reading a file.
--   Shell            sh/src/main.c: the line editor, and what is done with a line. `Editor` is what
--                    the line editor should do; `Lines` is about it.
--   Kio              src/kio.c, over port 0 of `Asci`. `Hex` is about the numbers that it prints.
--   Prt              src/prt.c, the timer.
--   Ds1302           src/ds1302.c, over the port and the chip as an interface. `Bytes` is about the
--                    bit loops, `Time` about `ds1302_time_get`.
--   Sermem           src/dev_sermem.c, over the calls of `File` on the backing file.
--   Dd               dd/src/main.c. `Copies` is about the copy loop.
--   Programs         ioctl/src/main.c, ls/src/main.c (`Ls`) and init/src/main.c (`Init`).
--   Common           What they share: tests on numbers, arrays, bits, C's signed results (`Int`),
--                    the end of a kernel path (`Run`: a result, a panic, or a null or dangling
--                    pointer), and the lists of z88dk as an interface (`ProcList`, with
--                    `ListModel` as the instance that the examples use).
--
-- How they interact: the scheduler owns the ready list; mutexes and semaphores take the current
-- process off the processor and put a waiting one back on that list; the block pool is built on
-- both; a pipe is two files over a circular buffer; a file is reached by a descriptor, an open
-- file and a reference count, and passes its calls on to a driver or a mounted file system. The
-- set-up of both file systems mounts them and makes files by those operations; a serial port is
-- built on two circular buffers; the calls that take a string of a process copy it by the DMA
-- controller; a fork takes a block of pages and the lists of processes, clones open files and copies
-- memory by the DMA controller. Each driver is a function on its own state, apart from the driver table.
--
-- Bounds: numbers are natural numbers with the wrap-around of the source written out, in 16 bits
-- for `size_t` and 32 for `off_t`. Every loop is by recursion on a number of rounds or on a
-- list, which is the bound that the source gives it (8 descriptors, 8 drivers, 16 blocks of 16
-- pages, the bytes of a read or a write), so no fuel is needed; but `sys_read` and `sys_write`
-- have `count + 1` rounds, and each round but the last moves a byte. Heap objects are reached by
-- 16-bit addresses. `sd_read` and `sd_write` have `length buf + 1` rounds in the same way. The waits
-- for the SD card and the flash chip have no bound in the code; here they make `patience` rounds, and
-- a device that is slower gives no result. The copy loop of dd, which need not end, has fuel, as the
-- loop of init that waits for its children has rounds. A process' number stays below 2 ^ 15 - 1. The
-- count of a semaphore is taken not to overflow.
--
-- Not under src/, so parameters: the lists of z88dk (`ProcList`, with their documented laws),
-- `malloc`, drivers and file systems as functions on what they keep (`Env`), the DMA controller
-- (`Dma`), the serial port and what hangs on it (`Csio`), a card (`Wire`), the bus to the flash chip
-- (`Bus`, `Chip`), the lines to the clock (`Lines`, `Serial`), the masks of the timer's register, the
-- files of the image, and `atoi`, `atol`, `itoa` and `ltoa`. To the programs the system calls are an
-- interface.
--
-- Not modelled: `sys_execve` and `process_dump_all`, the order of the set-up and the handlers in
-- main.c, the loop of the shell, the assembly files, the set-up of hardware registers, the halt in
-- panic.c, and the stubs of the C library. In `File` a path or a buffer is given as the characters
-- that were copied. The mutexes of the DMA controller, the ports and the flash chip are taken to be
-- free, and delays are left out.
pub mod Common
pub mod CircularBuffer
pub mod Mem
pub mod Process
pub mod Sync
pub mod File
pub mod Fs
pub mod Asci
pub mod Spi
pub mod Sd
pub mod Flash
pub mod Shell
pub mod Kio
pub mod Prt
pub mod Ds1302
pub mod Sermem
pub mod Dd
pub mod Programs
