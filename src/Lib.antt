-- ===== src/Lib.antt =====
-- StewieOS, an operating system kernel for 32-bit x86 in C, modelled part by part over explicit state.
--
-- Parts, files and sources:
--   Prelude      shared names, Boolean tests on machine numbers, indexed lists, words as bits, errors
--   Ring         positions in a circular buffer, shared by pipes and terminals
--   Pmm          kernel/src/pmm.c: `Frames` holds physical_frame and its count, `Page` the fields of a
--                page table entry that the file touches, `FrameStack` the stack of free frames.
--                Pmm/Bitmap is about the bitmap, Pmm/Owner about alloc_frame and free_frame, Pmm/Stack
--                about push_frame and pop_frame
--   Block        kernel/src/block.c: Block/Io has struct block_operations and struct block_device, and
--                the transfers of block_read and block_write; Block/Devices the table vfs_dev and the
--                calls through it. Block/Disk says what a driver that works does, Block/Read,
--                Block/Write and Block/RoundTrip are about the transfers over one, Block/Registry about
--                registration
--   Pipe         kernel/src/pipe.c: pipe_t, the loops of pipe_read and pipe_write, and the list of open
--                pipes. Pipe/Transfer is about one transfer, Pipe/Wait about a reader's sleeps,
--                Pipe/Open about pipe_open and pipe_close
--   Sem          kernel/src/sem.c: `Sem` is sem_t, `World` adds what the calls reach of the tasks and the
--                timer. Sem/Owed and Sem/Conserve are about the units over any sequence of calls, Sem/Timeout about
--                sem_timeout, Sem/Sleep about one task's wait
--   Tty          kernel/src/tty.c: `Tty` is tty_device_t with its queue. Tty/Queue is about tty_queue_insert
--                and tty_queue_getchar, Tty/Reads about tty_queue_read
--   Message      kernel/src/message.c: `Task` has the fields of struct task that messages use. Message/Order
--                is about a queue over any sequence of sends and pops, Message/Send about
--                sys_message_send on every path
--   Chrdev       kernel/src/chrdev.c: the table of character devices; Chrdev/Table is about what is found
--                in it
--   Clock        kernel/src/cmos.c: rtc_read in its steps; Clock/Calendar is about it and the Gregorian
--                calendar
--   Access       kernel/src/fs.c: path_access. Access/Verdict is about it and the rule of owner, group and
--                others
--   File         kernel/src/file.c and the calls on descriptors of kernel/src/fs.c. File/Types has struct
--                file, struct file_descr and the task's table (`Proc` is the running task with the
--                memory of files), File/Objects file_get, file_close and file_open, File/Table the
--                calls that make and close descriptors, with fork and exit, File/Calls those on an open
--                file. File/Balance, File/Holders, File/Descriptors, File/Opening and File/Lifetime are
--                about the reference counts, call by call, File/Reach and File/Steady about any sequence
--                of calls of all tasks, File/Boot about the first task, File/Failure about a sys_open
--                that fails, File/Rights about what a file was opened for, File/Flaws about dup2
--   Ext2         kernel/src/ext2fs: Ext2/Blocks has e2_alloc_block and e2_free_block of block.c, Ext2/Map
--                e2_inode_read_block_map, Ext2/Io and Ext2/Output the reads and the writes of
--                e2_inode_io, of inode.c. Ext2/Used, Ext2/Alloc and Ext2/Holds are about the blocks in
--                use, Ext2/Lookup and Ext2/Triply about the block map, Ext2/Contents about what is
--                read, Ext2/Written, Ext2/Rewrite and Ext2/RoundTrip about what is written
--   Kheap        kernel/src/kheap.c and kheap.h: `Heap` is heap_t with the headers and footers in
--                its memory, and every call of the file. Kheap/Tiled is about the blocks in memory,
--                Kheap/Holes about the list
--                of holes, Kheap/Combine, Kheap/Free and Kheap/Stale about heap_free_nolock, Kheap/Trim
--                and Kheap/Align about heap_trim, Kheap/Expand, Kheap/Scan and Kheap/Locate about
--                heap_expand and heap_locate, Kheap/Alloc about heap_alloc and heap_free on every path,
--                Kheap/Reuse about one after the other, Kheap/Reach about any sequence of them,
--                Kheap/Lock about the lock, and Kheap/Flaws about what they do wrong
--   Tasks        kernel/src/task.c: `Sched` has the tasks, their queue and the other globals; the queue,
--                sleeping, waking, killing, task_preempt, task_free and sys_waitpid. Tasks/Member is
--                about lists of tasks, Tasks/Queue, Tasks/Steps and Tasks/Reach about the queue of ready
--                tasks in any run, Tasks/Since, Tasks/Frees, Tasks/Passes, Tasks/Finds and Tasks/Preempt
--                about the end of task_preempt's loop, Tasks/Lost, Tasks/Unfound and Tasks/Unwaited
--                about a task killed while it waits, Tasks/Wait, Tasks/Exit and Tasks/Interrupt about
--                sys_waitpid
--   Signals      kernel/src/signal.c and ksignal.h: `SignalTask` is signal_state_t with the registers.
--                Signals/Count is about signal_check, Signals/Return about signal_return
--   Timer        kernel/src/timer.c: `Timers` is the table of callbacks with the list in it. Timer/Hang is
--                about a loop of timer_callback that does not end
-- A file's Tests module has small runs and uses of the theorems at concrete inputs.
--
-- State is passed from call to call. `u32`, `size_t` and `off_t` are 32 bits wide, and the
-- wrap-around is written out where a value can reach it. A call that halts the machine gives
-- `none`. Drivers and the allocator are arguments: what a driver does is a value of the record
-- `Ops` or, for files, `FileOps`, and whether kmalloc succeeds is a Boolean or an Option. A woken
-- task, a timer asked for and an echoed character are logged in the state. The loops over a bitmap,
-- a table, a list and a buffer are structural; pipe_read's loop has fuel of three rounds and one
-- for each sleep: a round that does not sleep finds the pipe empty or the request served in the
-- next one. heap_locate and signal_check call themselves, with fuel for the depth: two calls of
-- heap_locate are enough where no alignment is asked for, and one call of signal_check for each raised
-- signal and one more. The loop of task_preempt takes at most two rounds for each ready task and two
-- more, if one of them has not been killed. The loop of timer_callback has any number of rounds, and
-- `none` is a loop that goes on longer. Locks are not modelled where one caller alone acts, but
-- those of a semaphore and of the heap are; what other tasks do while a caller sleeps is an
-- argument. The path walk, sys_mknod and the
-- truncation of an inode are functions of the record `Kernel`, and a flag word is the record of its
-- bits that are tested. A use of a file that was released gives `none`.
--
-- Not modelled: directory entries, the walk of a path and mounts, the rest of the ext2 file system,
-- the making of tasks, their sleep for a time and their context switch, the timer interrupt, events, access to
-- the ports of the clock, program loading, paging, and the programs in userland. Nor are drivers that
-- talk to hardware (ata.c, pci.c, ps2.c, serial.c, the modules), descriptor tables and interrupt entry, the
-- registration of terminal drivers and reads of a terminal outside canonical mode, formatted
-- output, the ACPI glue, and libraries that the sources copy.
pub mod Access
pub mod Block
pub mod Chrdev
pub mod Clock
pub mod Ext2
pub mod File
pub mod Kheap
pub mod Message
pub mod Pipe
pub mod Pmm
pub mod Prelude
pub mod Ring
pub mod Sem
pub mod Signals
pub mod Tasks
pub mod Timer
pub mod Tty
