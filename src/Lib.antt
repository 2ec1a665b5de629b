-- ===== src/Lib.antt =====
-- NBOS: a small kernel for 32-bit x86, with a file system on a disk of 512-byte sectors, processes
-- that a timer switches, a keyboard and a text screen. This library models its C code and proves
-- what the parts do, or fail to do.
--
-- The parts, and the files that model them:
--   Memory/Copy    memory.c: `memcopy`, `memmov` and `fill`, byte by byte. A region is a function from
--                  positions to bytes, which the other parts copy from and to.
--   File/Disk      diskload.c and file.c: a disk is a function from sector numbers to sectors;
--                  `k_readsector`, `k_writesector`, `write_block` and `clearBlock`.
--   File/Layout    kernel.h: `struct inode` and `struct super_block`, and their bytes on the disk.
--   File/Inodes    file.c: the super block, `read_inode`, `writeInode`, `allocInode`, and the first
--                  initialisation of the list of free inodes.
--   File/Bitmap    file.c: `getFreeBlock`, `update_dataBlockBit`, `allocBlock`, `init_dataBlockBit`.
--   File/Content   file.c: `writeFile`, `read_file_at_offset` and `readFile`.
--   Process        process.c and kernel.h: the table of processes, `init_pcb`, `getPid`,
--                  `allocProcess`, `copyContext`.
--   Process/Sched  interrupt.c and process.c: `do_timer_handler` and `schedule`.
--   Process/Wait   process.c and syscall.c: `haveChildren` and `sys_wait`.
--   Screen         print.c: the cursor, `put_char`, `print`, `printn`, `clear_screen`.
--   Keyboard       keyboard.c: `getAscii`, `handleCode`, `readStdin`.
--   Memory/Pages   memory.c: `init_memory`, `alloc_page`, `free_page`, `page_map`, `get_phy_addr`.
--   Strings        str.c: sizes, separators, comparing, matching and counting.
--   Lock           lock.c and x86.c: `init_lock`, `acquire`, `release` and `xchg`.
--   File/Table     file.c and syscall.c: the table of open files, descriptors, `sys_close`.
--   Process/Exit   process.c and syscall.c: `getPCB` and `sys_exit`.
--   Interrupt      interrupt.c: `make_idt_desc`, `renew_handler`, `interrupt_assign`; in Setup the
--                  controllers and the interrupt table, in Report what exceptions print.
--   File/Directory file.c: `seekFileInode`, `seekBaseDirectory`, `writeDirectory`.
--   File/Format    file.c: `create_rootDir`, `init_userpro`, `init_file`.
--   File/Ide       diskload.c: `k_operatesector`, with its port writes.
--   File/ReadSeg   diskload.c and loader.c: `read_seg`, `load_process`, `loader_main`.
--   Memory/Elf     elf.h: the headers of a program.
--   Memory/Entry   entry.c: the page tables with which the kernel starts.
--   Memory/Bitmap  memory.c: `palloc`, `kmap`, `kalloc`, `umap`, `ualloc`, `free`, which nothing uses.
--   Process/User   main.c: `switch_to_user`.
--   Process/Space  syscall.c: `copy_process_mem` and `free_process_user_mem`.
--   Process/Load   process.c: `readSegment`, `loadProcess`, `create_process`.
--   Process/Fork   syscall.c: `sys_fork`.
--   Process/Execve syscall.c: `sys_execve`.
--   Syscall        syscall.c: `sys_clear`, `sys_write`, `sys_read`, `sys_open`, `sys_creat`, over a
--                  machine with the process tables, the open files, the disk, the screen, the keyboard
--                  and the memory of the current process.
--   System         interrupt.c, syscall.c and interrupt_handler.s: the kernel as one state, and
--                  `interrupt_assign` with every handler; in Reach the states that it comes to.
--   User           unistd.c and unistd.h: the stubs, as the registers that they enter the kernel with; in
--                  Shell shell.c, as a machine over its system calls, in Programs mypro.c and process 0.
--   Start          entry.c and task.c: the descriptors and `init_tss`; main.c: `main` up to `sti`.
-- The files below a part hold its theorems, and Tests their use at concrete values.
--
-- The operations pass the state they change: a disk, an open file, a table of processes, a screen,
-- a keyboard. A result -1, a read behind a table or a write through a null pointer is a value of
-- its own. Machine words are natural numbers with the wrap-around written out where the code can
-- reach it, and `int` variables that go below zero are the integers of Base/Int.
--
-- Loops are structural recursion on the number of rounds that the source's bound leaves. Some loops
-- have no such bound in the source: `getPid` gets 83 passes, which Process/Pid shows to be enough; the
-- second loop of `getFreeBlock` gets 9 rounds, since a byte has no bit 8; and `writeFile` and
-- `read_file_at_offset` get one round for each byte, of which each round moves at least one.
-- The searches of str.c take a bound of their own, which Strings/Search shows to be enough when it is
-- more than the length of the text. A round of `acquire` is a step, and so is a round of `sys_wait`.
--
-- The directories keep a path in 100 bytes and a name in 20, as file.c does; a text without an end in
-- them is the result `none`. The mapping of a segment gets 257 rounds, which take its pointer once
-- around the addresses, and the loops over program headers 65536, as many as a short can count.
--
-- What is outside of the source is an argument: the bytes that the stack held (`behind`), the words and
-- the status of the drive, and the way that the processor takes from a user address to the memory
-- (`walk`).
--
-- The parts meet in System: its state holds the state of each of them, `handle` calls their functions as
-- interrupt.c does, and a step is any interrupt with any registers, or a write of a program to memory.
-- The process blocks and the table of open files are fields beside the memory, and `tables_at` gives their
-- places in it: `sys_read` does not check its buffer, and where the buffer leads into these places the
-- result is `overwriting`. A write into the tables, by `sys_read`, by a segment of a program that
-- `sys_execve` loads or by a program, is a step of its own, after which the state is anything; `Untouched`
-- names the ways to a state that have no such step, and what is shown of reachable states is shown for these.
-- What a program sees of the memory is taken from the pages through `walk`, and what `sys_read` gives it
-- is put back the same way, byte by byte. Start leads to the first of these states.
--
-- Not modelled: the rest of the assembly (the boot sector, and the context switch, which is an effect in
-- the model), the loads of the processor's registers in entry.c and task.c, and the padding of structures.
-- The timer's handler prints the id of the process that it switches to: this is an effect too, so the screen
-- of System does not change there, and the screen's lock is taken to be free. Addresses of buffers and their
-- ends in `writeFile` and `read_seg` are taken not to wrap around at 2^32.
pub mod Base
pub mod Memory
pub mod Strings
pub mod Lock
pub mod File
pub mod Process
pub mod Interrupt
pub mod Screen
pub mod Keyboard
pub mod Syscall
pub mod System
pub mod User
pub mod Start
