-- ===== src/Lib.antt =====
-- A verification library for the kernel of NYCU-OSC.
--
-- The program is a bare-metal kernel for the Raspberry Pi 3. Its parts call each other as follows:
-- every part takes memory from the page allocator through the object allocator, prints over the
-- serial port, and keeps text with the string functions; the file systems sit below a virtual file
-- system that the system calls use; the core timer interrupt runs timer callbacks, one of which
-- asks for a new schedule.
--
-- Each part is a function on an explicit state. Pointers are numbers that index a store, or
-- `Option ℕ` where they can be NULL. What `alloc` returns, what a device register reads and what
-- the clock says are arguments. A loop is structural recursion, or recursion on a number of rounds
-- whose bound is given below, or whose end, where the rounds are an argument, is `none`.
--
--   Prelude  names of the libraries, tests on numbers, lists, integers, stores and bits that the
--            other modules share.
--   Mm       src/mm.c, the buddy allocator. `Mm` is `free_list` and `page_list`; `page_alloc` is
--            `_alloc` and `page_free` is `_free`. Mm/Types, Order, FreeList, Alloc, Free and Init hold
--            the code; Dll, Insert and Remove are about the linked lists, Blocks and Inv state the
--            abstract view (the free blocks of each order) and the invariant, Split, SplitCover and
--            Found are about `_alloc`, Buddy, Merge and Freed about `_free`, Initial about `mm_init`.
--            The splitting loop has `i - order` rounds, the merging loop `MAX_ORDER - 1 - order`; the
--            loop of `get_order` has 31 rounds, enough for every `int`.
--   CString  src/string.c: `strcmp`, `strlen`, `strdup` and `strtok` over lists of bytes, `memset`
--            and `memcpy` over a memory.
--   Utils    src/utils.c: numbers in text, byte order, alignment, on 32 bits. The digit loops have
--            ten rounds, the digits of an `int`.
--   Uart     src/uart.c: the text output, and the receive and transmit rings with their interrupt
--            handlers. Uart/Input is the busy-waiting input. Uart/Ring reads a ring as a queue,
--            Uart/Async the operations as operations on queues, Uart/Drain is about interrupts in a
--            row, Uart/Print reads the printed numbers back. Uart/Setup is the set-up of the
--            registers, with the watchdog of src/power.c, Uart/Echo the test that sends back what it
--            receives, and Uart/Echoed is about it; its rounds are an argument.
--   Timer    src/timer.c: the list of timers with its back links, and the core timer interrupt, with
--            the callbacks as a parameter; the loop of the handler has a number of rounds, enough if
--            it is at least the number of timers that have expired. A message that is longer than its
--            field sets `overrun`, behind which nothing is described. Timer/Callbacks is the callbacks
--            of the file, each with its own readings of the tick, Timer/Handled is about the interrupt
--            with them.
--   Fs       include/fs_vfs.h and src/fs_tmpfs.c: the tmpfs. Fs/Tmpfs is the directory side,
--            Fs/TmpfsFile the file side; Fs/Long is the conversion between `size_t`, `long` and
--            `int`. The capacity of a file doubles at most 64 times.
--   Vfs      src/fs_vfs.c. Vfs itself is `get_next_component` and `vfs_lookup`, with the lookup
--            operation of the vnodes as a field of the state; the loop has as many rounds as the path
--            has bytes, and Vfs/Components and Vfs/Lookup relate it to the names in a path.
--            Vfs/System is the state of the other functions and `Driver`, the record of the
--            operations that file systems and devices give them, which they take as an argument;
--            Vfs/Open is `vfs_open`, `vfs_mkdir` and `vfs_mknod`, Vfs/Files the operations on a
--            file, Vfs/Mount the table of file systems and `vfs_mount`. Vfs/Paths is about the last
--            slash of a path, Vfs/Mounted about mounts. Vfs/Kernel is the `Driver` of the tmpfs, the
--            initramfs and the devices, Vfs/ReadBack is about a write and a read through it, and
--            Vfs/Boot is `vfs_init`.
--   Sched    src/sched.c: the ready, wait and zombie queues as links in one store, and `schedule`,
--            `_exit` and `_kill`. Sched/Queue and Sched/Remove read the links as lists, Sched/Switch is
--            about a switch between tasks. A walk along a queue has a number of rounds, enough if it
--            is at least the length of the queue. Sched/Create is the creation of tasks and
--            `kill_zombies`. Sched/Inv states what holds of the queues, Sched/Plan is an abstract
--            scheduler of lists of tasks, Sched/Refine, Sched/Kill and Sched/Admit are about the
--            operations as its operations, and Sched/Reach is the relation of the steps that they
--            make. `_exec`, which leaves its task both current and in the ready queue, is not one of
--            the steps.
--   Kmem     src/alloc.c, the object allocator, over `page_alloc` and `page_free`. A chunk is named by
--            its entry. Kmem/Pools reads the free lists as pools of chunks, Kmem/Chunks is about the
--            chunks cut from a page. The loop of `get_chunk_order` has 28 rounds, up to order 31.
--   Dev      src/dev_uart.c and src/dev_framebuffer.c: the operations of the device files; the
--            mailbox call is an argument.
--   Cpio     src/cpio.c: the walks over an archive in memory. Cpio/Newc is the format as a program
--            writes it, Cpio/Walk is about the headers that a walk meets, and Cpio/Archive relates the
--            walks to the files that were written, for which one round more than there are files is
--            enough. Fs/Initramfs is src/fs_initramfs.c.
--   Syscall  src/syscall.c: the system calls on files, signals, the serial line and the end of tasks,
--            over one state of the registers, the files and the queues. Syscall/FileCalls is the
--            calls on files, Syscall/Other those that the dispatch takes as an argument, and
--            Syscall/Entry the dispatch, `syscall_entry` of src/exception.c; Syscall/Files is about
--            descriptors and `sys_chdir`.
--            Syscall/Fork is `sys_fork`, `sys_sigreturn` and the frame that `handle_signal` saves,
--            over a memory of bytes; Syscall/Fork/Copies and Forked are about a child. Syscall/Exec
--            is `_exec` of src/exec.c up to the entry into the program.
--   Signal   src/signal.c: the pending signals, up to the switch into a handler of the program. A flag
--            says whether the ready queue is empty, where `_exit` comes back.
--            Signal/Mask reads the mask as a list of signals, Signal/Deliver is about their order.
--   Mailbox  src/mailbox.c, with the device as an argument, and the requests of `cmd_mbox` of
--            src/shell.c.
--   Loader   bootloader/src/load.c and the script send_kernel.py at the other end of the line;
--            Loader/Received is about the two together.
--   Devicetree  src/devicetree.c: the header and the walk over the tokens, in a number of rounds, enough
--            if there are at least as many as tokens.
--   Tasks    src/tasks.c: the deferred tasks in the order of priority. Tasks/Irq is `uart_irq_handler`
--            of src/uart.c and `irq_entry` of src/exception.c.
--   Shell    src/shell.c: `parse_cmd` over `strtok`. Its loop has nine rounds, since the tenth word
--            ends it. Shell/Commands is a round of `shell`, up to the call for the command.
--   Tests    concrete runs, and the theorems at concrete inputs.
--
-- Not modelled: the entry into programs and into their signal handlers, exception entry and the
-- wrappers of the system calls, which are assembly; the interactive tests in main.c; the boot
-- loader's own copies of the serial port and string functions. In the parts above, the printing of
-- debug messages is left out.
pub mod Prelude
pub mod Loader
pub mod Mm
pub mod CString
pub mod Utils
pub mod Uart
pub mod Timer
pub mod Fs
pub mod Vfs
pub mod Sched
pub mod Kmem
pub mod Dev
pub mod Mailbox
pub mod Syscall
pub mod Tasks
pub mod Shell
pub mod Cpio
pub mod Devicetree
pub mod Signal
mod Tests
