-- ===== src/Lib.antt =====
-- The core of an OS/161 kernel: its data structures, the kernel heap, synchronisation, user memory
-- copies, the simple virtual memory system, SFS, the VFS layer, the table of open files and the
-- console's input. Paths are from the repository's root.
--
-- Base has the shared helpers: lists and tests on native numbers, machine words and their bits, and
-- Run, how kernel code ends: it returns, it stops the machine (KASSERT, panic), or it reads or writes
-- outside an object. Kmalloc is the interface to kmalloc that the growing structures
-- use: a block of the words asked for, with any contents, or NULL; Kheap is what stands behind it.
--
--   Bitmap       lib/bitmap.c: bitmap_create, _alloc, _mark, _unmark, _isset as create, alloc, mark, ...
--   Kheap        vm/kmalloc.c: kmalloc and kfree, the subpage allocator with its page references
--   Queue        lib/queue.c: q_addtail, q_remhead, ... as addtail, remhead, ...; the ring of cells that
--                q_grow doubles
--   Array        lib/array.c and include/array.h: array_setsize, array_add, ... as setsize, add, ...
--   Bswap        lib/bswap.c: the byte swaps and the halves of 64-bit numbers
--   ThreadList   thread/threadlist.c: the doubly linked list with two sentinels, in a memory of pointers
--   Sync         thread/synch.c with the wait channels of thread/thread.c: P and V in Semaphore,
--                lock_acquire and lock_release in Lock, as steps of threads that interleave
--   Spl          thread/spl.c and thread/spinlock.c: interrupt levels and spinlocks
--   CopyInOut    vm/copyinout.c: copyin, copyout, copyinstr, copyoutstr with their traps
--   Uio          lib/uio.c: uiomove, with a turn of its loop for each byte and each block, and uio_kinit
--   Sfs          fs/sfs/sfs_io.c and the block level of fs/sfs/sfs_vnode.c: rwblock, balloc, bfree, bmap;
--                Sfs/Truncate has sfs_truncate, Sfs/Dir the directories: sfs_dir_findname, _link, _unlink,
--                Sfs/Files sfs_link, sfs_remove and sfs_rename with the link counts
--   Vfs          vfs/vfslist.c: the table of devices; Vfs/BigLock the big lock; Vfs/Lookup
--                vfs/vfslookup.c, vfs/vfscwd.c and the counts of vfs/vnode.c; Vfs/PathOps and Vfs/Open
--                vfs/vfspath.c, with vfs_open and vfs_close in Open
--   Files        syscall/file.c and syscall/file_syscalls.c: the table of open files of a process
--   Console      dev/generic/console.c and lib/kgets.c: the ring of input characters, and lines read from it
--   DumbVm       arch/mips/vm/dumbvm.c and ram.c: pages, address spaces, TLB misses
--
-- Each of these files holds the state and the operations of its part. Its child modules hold the
-- proofs, by what they prove, and Tests the runs. A thread list is what a wait channel keeps its
-- sleepers on; Sync has the sequence of sleepers that such a list stands for.
--
-- Sfs stands on Bitmap: the free map of a file system is one. Vfs takes what file systems answer
-- through their function tables (fs.h, vnode.h) as parameters. Files stands on Vfs/Open: an entry of the
-- table holds a reference and an open of its vnode.
--
-- Bounds and fuel. Unsigned arithmetic is written modulo its width. The doubling loops of q_grow
-- and array_setsize have 32 rounds, after which an int has run over; the copying loop of q_grow and
-- the counting loop of q_len have a round for each cell of the ring, and the loop of bitmap_alloc
-- one for each byte. The copies of CopyInOut have a round for each byte. sfs_rwblock has its ten
-- retries, and the loops of sfs_truncate one round for each entry. The loops over the page
-- references and the blocks of a page in Kheap, and over the descriptors in Files, have a round for
-- each of them, and kgets one for each key. Where the bounds of a size or a count matter, the
-- results state them.
--
-- Not modelled: condition variables, the scheduler and the threads' switches, the file I/O and the
-- vnode table of SFS, the other system calls and processes, and the devices but for the console's
-- input. The names of locks and semaphores, and debug messages, are left out.
pub mod Base
pub mod Bitmap
pub mod Kmalloc
pub mod Queue
pub mod Array
pub mod Bswap
pub mod ThreadList
pub mod Sync
pub mod Sfs
pub mod Uio
pub mod Spl
pub mod DumbVm
pub mod CopyInOut
pub mod Vfs
pub mod Files
pub mod Console
pub mod Kheap
