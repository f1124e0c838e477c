-- ===== src/Lib.antt =====
-- A model of parts of the kernel, an xv6 that has threads and mutexes inside processes, with the
-- theorems that make these parts correct.
--
-- The parts and their files. A file without a folder passes on the names of the files in its
-- folder.
-- - Base: shared names over the native natural numbers, list lemmas, and `Result`, in which a
--   kernel panic and an access outside an array are values (`panic`, `fault`). `Post` is what
--   holds of the value that a function returns.
-- - Kalloc, the page allocator (kalloc.c). The memory is a function from addresses to words, and
--   the free list is linked in that memory. Kalloc.Defs has the operations under their names in
--   C; Kalloc.Chain and Kalloc.Range have the theorems.
-- - Proc, processes and threads (proc.c, proc.h, and the first half of kthread.c). The table of
--   processes is a list, a thread is named by the pair of its indices (`Ptr`), and what a thread
--   sleeps on is a `Chan`. Proc.Sleep has sleep, wakeup, yield and kill; Proc.Life has allocproc
--   and kthread_create, kthread_exit and kthread_join over the allocator; Proc.Exit has exit, and
--   wait, which frees the address space of a child by the freevm of Vm. The laws stand in
--   Proc.SleepLaws, Proc.Birth, Proc.Join, Proc.Rendezvous, Proc.Reap and Proc.Orphans.
-- - Mutex, the mutexes of kthread.h (the second half of kthread.c) over the process table. The
--   queue of a mutex is its array, which the code shifts on each removal. Mutex.Inv is the
--   invariant of the table, Mutex.Ops the behaviour of each branch, Mutex.Table allocation,
--   Mutex.Yield yieldlock, Mutex.Wakeup what holds over several calls, Mutex.Total every way in
--   which lock and unlock end.
-- - Monitor, the condition variables and slot monitors of user programs (mesa_cond.c,
--   hoare_cond.c, mesa_slots_monitor.c, hoare_slots_monitor.c). Monitor.Calls is the interface of
--   the system calls on mutexes, over which Monitor.Mesa and Monitor.Hoare have the operations;
--   Monitor.Kernel fills it with the calls of kthread.c, as a thread that runs alone sees them.
--   Monitor.MesaLaws holds for every kernel, Monitor.MesaRun and Monitor.HoareLaws for that one.
-- - Pipe (pipe.c) over the process table and the allocator: Pipe.Ring is the ring as a list of
--   bytes, Pipe.Stream the stream that readers and writers see, Pipe.Wakeups who is woken.
-- - Vm (vm.c), page tables in the memory of the allocator: Vm.Table has the entries and their
--   use, Vm.Space the address spaces. Vm.View is what an address space maps and when it is well
--   formed, Vm.Frame and Vm.Map what writes to it do, Vm.Range maps ranges, Vm.Round and Vm.Grow
--   have allocuvm, Vm.Bytes, Vm.Part and Vm.Copy have copyout. The linker's symbol `data` is an
--   argument.
-- - Log (log.c). Log.Disk is what the log sees of bio.c: the newest contents of each sector and
--   the disk, which stops taking writes when the power fails. Log.Header is the header block,
--   Log.Install what a commit writes, Log.Space the room in the log, and Log.Crash what a crash
--   leaves.
-- - Bio, the buffer cache (bio.c) over the memory disk of memide.c. The list of buffers stands in
--   the order of its links. Bio.Get is what bget finds, Bio.Unique that a sector has one buffer,
--   Bio.View what the cache shows of the disk, and Bio.Read what bread returns.
-- - Str, the byte and string routines (string.c) over a memory of bytes: Str.Move for memmove,
--   Str.Copy for safestrcpy, Str.Compare for strncmp.
-- - Fs, the file system (fs.c, fs.h). A disk is a function from block numbers to bytes by offset:
--   what bread shows once the changes that log_write records are in. Fs.Layout is the format of
--   the disk, Fs.Bitmap the blocks in use, Fs.Inode inodes on the disk and in the cache,
--   Fs.Content the bytes of a file, Fs.Path directories and paths. Fs.Blocks, Fs.Cache, Fs.Dinode
--   and Fs.Names have theorems on each; Fs.Keys, Fs.Refs, Fs.Lookups, Fs.Walks and Fs.Resolve
--   follow the references that a walk along a path takes and gives back. Fs.Calls has the calls
--   of sysfile.c on paths, where a thread that finds an inode locked is `asleep` and the call
--   ends there; Fs.Chdir is about one of them. The drivers that devsw names are a parameter
--   (`Devices`).
-- - File, open files and descriptors (file.c, pipealloc of pipe.c, and from sysfile.c dup, close
--   and pipe) over pipes and the file system. File.Defs is the table of files, File.Calls the
--   descriptors of the processes. File.Table has the counts of the table, File.Count, File.Close
--   and File.PipeCount what the calls do to them, File.Race a close during dup.
-- - Sh, the parser of the shell (sh.c). A pointer into the line is the part of the line behind
--   it, and a pointer that a command keeps is the length of that part. Sh.Lexer is gettoken and
--   peek, Sh.Parser the recursive descent, with panic as a value; Sh.LexerLaws, Sh.Rules,
--   Sh.Bounds and Sh.Terminate have the theorems.
-- - Ulib: Ulib.Number is printint (printf.c) and atoi (ulib.c), with the theorem in Ulib.Decimal;
--   Ulib.Match the matcher of grep.c, which Ulib.Items and Ulib.Regex compare with what a pattern
--   describes.
-- - Syscall, the arguments of system calls (syscall.c) in the memory of a process: Syscall.Args
--   is what the checks let pass.
-- - Console, the ring of typed characters (console.c): Console.Ring is what typing does to it,
--   Console.Read what a reader takes.
-- - Spinlock (spinlock.c): one attempt of acquire, release, and the nesting of pushcli and
--   popcli, with the theorems in Spinlock.Nesting. The other parts do not use it.
--
-- Steps. The locks are not represented in the other parts. What C does between taking a lock and
-- giving it back, or sleeping, is one function, so an interleaving is a sequence of these
-- functions: kthread_mutex_lock is `lock_enter`, `lock_block` and `lock_resume`, pipewrite and
-- piperead are a section up to the next sleep, kthread_join is a round up to its sleep, sleep is
-- `sleep_begin` and `sleep_end`, and end_op is `end_op` and `finish_op`. The theorems do not show
-- that the locks exclude each other.
--
-- Numbers. The counters of a pipe and of the console wrap around at 2 ^ 32. Addresses and lengths
-- that user code passes are words of 32 bits. Process ids and the counter of open log operations
-- are natural numbers without a bound, and so are addresses in the kernel.
--
-- Fuel. `free_from`, the loop of freerange, gets `vend / 4096 + 1`: the loop steps by 4096 below
-- `vend`. The loops of vm.c get the number of pages in their range and one more; balloc gets
-- `size / 4096 + 1` rounds for the blocks of the bitmap; readi and writei a round for each byte
-- to move, of which a round moves one or more; a scan of a directory one round more than it has
-- entries; namex one round more than the path has characters; each loop and each recursion of the
-- shell's parser one more than the characters left; printint 32, since a word has at most 32
-- digits; the loops of a monitor the number of waits, chosen by the caller; and killing a line at
-- most the 128 characters of the ring. The other loops are structural on the arrays they scan.
--
-- Not modelled: open of sysfile.c, what begin_op and end_op do around the calls on files, loaduvm
-- and the registers of vm.c, program loading, devices but for the memory disk and the input of
-- the console, traps, the shell but for its parser, and the user programs but for the matcher of
-- grep; fork, what exit does to files, and the scheduler; and the parts that print.
pub mod Base
pub mod Kalloc
pub mod Proc
pub mod Mutex
pub mod Pipe
pub mod Log
pub mod Bio
pub mod Str
pub mod Spinlock
pub mod Fs
pub mod File
pub mod Sh
pub mod Vm
pub mod Ulib
pub mod Console
pub mod Syscall
pub mod Monitor
