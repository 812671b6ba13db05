-- ===== src/Lib.antt =====
-- A model of the OS/161 kernel's system calls on files and processes and of the kernel libraries that
-- they stand on, with the theorems that make it correct.
--
-- The parts, and what of the repository they follow:
--
-- * FileTable (kern/syscall/file.c, kern/include/file.h): the descriptor table of a process and the
--   open file table that all processes share, with reference counts. `file_open`, `file_read`,
--   `file_write`, `file_close`, `file_table_init` and `file_table_destroy` are the functions of
--   that name; `transfer` is the body that file_read and file_write have in common, with the direction of the uio as
--   an argument, and the
--   `fd_t`, `openfiles` and `held` of `Files` are curproc->fd_t, of_t and whether oft_l is held.
-- * FileSyscalls (kern/syscall/file_syscalls.c, and the loop of sys_fork in
--   kern/syscall/proc_syscalls.c that shares the open files): open, read, write, close, dup2,
--   lseek. FileSyscalls/Reach runs calls and forks in any order.
-- * Vfs (kern/include/vfs.h, kern/include/vnode.h): what those two use of the file systems, as a
--   record of operations over a state of its own. A vnode is a table of function pointers, so its
--   operations stay open; where a theorem needs what vnode.h says of a transfer, it is the
--   hypothesis `Transfers`.
-- * PidTable (kern/thread/pid.c, kern/include/pid.h, and sys_waitpid in
--   kern/syscall/proc_syscalls.c): process ids, parents and exit statuses. `pid_wait` is the code
--   up to cv_wait and `pid_wait_woken` the code after it; `pid_exit_locked` is pid_exit up to the release
--   of pt_lock. PidTable/Processes is a step relation in which processes fork, wait, exit and wake
--   in any order. A fork may fail behind pid_create, which leaves an entry without a process. A process
--   that runs with id -1, since no id was free, is noted, and what it does is left out.
-- * Copyinout (kern/vm/copyinout.c, common/libc/string/memcpy.c): copies between user and kernel
--   memory. Memory is a partial function from addresses to bytes; what cannot be accessed holds
--   nothing, and an access to it is the trap that copyfail turns into EFAULT.
-- * Uiomove (kern/lib/uio.c, kern/include/uio.h, common/libc/string/memmove.c): uiomove and
--   uiomovezeros over the blocks of a uio, by means of Copyinout.
-- * Synch (kern/thread/synch.c, and wchan_sleep and wchan_wakeone of kern/thread/thread.c):
--   semaphores and locks, as steps of any number of threads. `p_round` and `lock_round` are one
--   round of the loops of P and lock_acquire. Synch/Creation has the creation and destruction of
--   the three objects on a heap of which only the number of blocks in use is kept.
-- * Hangman (kern/thread/hangman.c, kern/include/hangman.h): the deadlock detector, with the graph of
--   who waits for what and who holds what as two functions. Hangman/Reached runs its three calls in
--   any order.
-- * Naming (kern/vfs/vfslookup.c, kern/vfs/vfscwd.c, vfs_getroot and the big lock of
--   kern/vfs/vfslist.c, and the reference counts of kern/vfs/vnode.c): from path names to vnodes.
--   `getdevice`, `vfs_lookup`, `vfs_lookparent`, `vfs_chdir` and the others are the functions of that
--   name; `Names` is the state that they share: the counts, p_cwd, bootfs_vnode and the depth of the
--   big lock. The table of devices is a parameter, and so are the file systems, as a record of what
--   their function pointers answer; the last reference to a vnode goes if VOP_RECLAIM answers 0.
-- * Sfs (kern/fs/sfs/sfs_balloc.c, kern/fs/sfs/sfs_bmap.c, and the block requests of
--   kern/fs/sfs/sfs_io.c): the blocks of one file, on Bitmap. `Fs` is the volume, its disk and the
--   inode; what the device does at each request is a parameter, `Disk`. Sfs/Truncate is sfs_itrunc.
-- * Threadlist (kern/thread/threadlist.c, kern/include/threadlist.h): doubly linked lists of threads,
--   on a store of the fields of all nodes. Threadlist/Commands has what each call means for the row
--   of threads.
-- * Arrays (kern/lib/array.c, kern/include/array.h): resizable arrays. A cell that has not been
--   written holds nothing.
-- * Time (kern/lib/time.c): sums and differences of times.
-- * Bitmap (kern/lib/bitmap.c): arrays of bits in bytes. Bitmap/Spec is the abstract view, a function
--   from indices to Booleans, which the theorems of Bitmap speak of; Bitmap/Refines has the calls as
--   operations on a set of indices.
--
-- Base has what they share: kernel code as functions from a state to a result `Run`, which is a value
-- (`ret`), an error code (`fail`), a panic or failed KASSERT (`panic`), or an access through NULL or
-- outside of an object (`fault`); C arrays as lists; machine words; and `scan`, the search for a
-- free slot that two of the tables make. Examples applies the theorems to concrete inputs.
--
-- Numbers. An int, an unsigned and an address are below 2^32, an off_t below 2^64, in two's complement,
-- with the wrap-around written out (Base/Words); a time's seconds are a signed word of 64 bits too. C
-- leaves the overflow of a signed word open, and the model wraps it; theorems with a bound on their
-- operands say so.
--
-- Loops. Loops over a table of fixed size run on the number of rounds left (OPEN_MAX, PID_MAX). The
-- loops of uiomove and uiomovezeros and the growth of an array run on fuel and fault without any.
-- So does the walk of `hangman_check`, for which a theorem gives enough fuel.
-- `uiomove` takes as many rounds as there are bytes and blocks, and one, which is enough since every
-- other round leaves a block behind or moves a byte; `uiomovezeros` and `array_preallocate` take one
-- more than the bytes or cells asked for, which is enough since every round moves a chunk or makes
-- room for a cell more.
--
-- Locks. All that a call does between lock_acquire and lock_release is one step, and a lock is held or
-- free; taking a lock that the thread holds panics, as in kern/thread/synch.c. Sleeping in cv_wait
-- ends a step. Synch has the detail that this leaves out: the loops that take a lock, with the
-- threads that sleep on it.
--
-- Disk. A block request is tried again ten times after EIO, as in kern/fs/sfs/sfs_io.c, with the same uio;
-- `Disk` says for each request what it returns and, if it fails, whether it has used up the uio,
-- after which a request that succeeds moves nothing. lhd_io of kern/dev/lamebus/lhd.c does that to a
-- write. A write that fails is taken to leave the block as it was. The hypothesis `IsSteady` rules out
-- EINVAL, at which sfs_io.c panics, and the uio used up by a request that fails with EIO.
--
-- Not modelled: the scheduler, interrupts and spinlocks; mounting, directories and file contents of
-- file systems, and the devices; address spaces and program loading; the heap (an allocation is a flag of the call
-- where its failure is looked at, and freeing is left out but in Synch/Creation); condition
-- variables but for who sleeps on them; user programs.
pub mod Arrays
pub mod Base
pub mod Bitmap
pub mod Copyinout
pub mod Examples
pub mod FileSyscalls
pub mod FileTable
pub mod Hangman
pub mod Naming
pub mod PidTable
pub mod Sfs
pub mod Synch
pub mod Threadlist
pub mod Time
pub mod Uiomove
pub mod Vfs
