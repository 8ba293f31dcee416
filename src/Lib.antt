-- ===== src/Lib.antt =====
-- A model of the file system in user space: the disk, the blocks and inodes kept on it, and the
-- blocks of each file.
--
-- The program has layers. The disk layer (lib/disk_layer.c) reads and writes blocks of 4096 bytes.
-- The block layer (lib/block_layer.c) keeps on them a super block (block 0), the inodes, and a list
-- of free data blocks. The file layer (lib/file_layer.c) maps the blocks of a file to data blocks
-- through the inode, does paths and directories, and has the operations on files; it remembers in a
-- cache (lib/lru_cache.c) which inode a path leads to. The FUSE layer (lib/fuse_layer.c) has the
-- handlers that libfuse calls, and calls the file layer. The hash table (lib/hash_table.c) is not
-- used by the others.
--
-- The files, each with its child modules of proofs:
--   Base      names of the library, tests on numbers, lists, and `ssize_t` (Base/Ssize).
--   Bytes     a block as bytes, and words and structs in it (`memcpy` and casts of pointers).
--   Fs        the state: the disk and the super block in memory. A command returns a value and a
--             state, or faults (C has no defined behaviour there), or runs out of fuel.
--   Disk      lib/disk_layer.c: `alloc_memory`, `read_block`, `write_block`, over memory; Memory has
--             `dealloc_memory`. Device is the configuration with `DISK`: what the system calls on
--             the device do is a parameter, with the laws of POSIX that the code relies on as fields.
--   FreeList  lib/block_layer.c: `create_new_dblock`, `free_dblock`, `read_dblock`, `write_dblock`.
--             Chain says when the list is in order; Create, Free, Full and Ends are about the operations.
--   Inode     lib/block_layer.c: `struct iNode`, `read_inode`, `write_inode`, `create_new_inode`,
--             whose loops Scan and Visit are about.
--   MakeFs    lib/block_layer.c: `make_fs` and what it calls.
--   FilePath  lib/file_layer.c: `get_parent_id`, `get_parent_path`, `get_child_name`.
--   FileMap   lib/file_layer.c: `fblock_num_to_dblock_num`, `write_dblock_to_inode`,
--             `add_dblock_to_inode`.
--   Release   lib/block_layer.c: `free_inode` and `free_dblocks_from_inode`; lib/file_layer.c:
--             `remove_single_indirect` and its like.
--   Truncate  lib/file_layer.c: `remove_dblocks_from_inode`.
--   History   the sequences of calls on data blocks from `make_fs` on, with the blocks that are held;
--             a block is given back only if it is held and the free list is not empty.
--   Directory lib/file_layer.c: `find_file`, `is_empty_dir`, `add_new_entry`. Records says what list
--             of entries a block holds; Find, Place and Added are about searching and adding, and
--             Write is about the bytes. Names, Enter, Entered and Adding are about a directory as a
--             function from names to inode numbers. Reads is about commands that change nothing.
--   State     commands over any state; World is the state of the file layer: that of the block layer,
--             the cache, and what `time` returns. A use of a null or freed pointer is a crash.
--   Cache     lib/lru_cache.c, with its nodes at addresses. Lookup and Evict are about a key that is
--             put in.
--   Resolve   lib/file_layer.c: `get_inode_num_from_path`, `create_new_file`. Kept is about what path
--             resolution changes, Fuel about its recursion on parent paths.
--   Operations  lib/file_layer.c: `custom_mkdir`, `custom_mknod`, `custom_truncate`, `custom_open`,
--             `custom_close`, `init_file_layer`. Dots and Root are about the entries of a new
--             directory and the root, Cut is about `custom_truncate`, NewFile and Mknod about
--             `create_new_file` in `custom_mknod`.
--   Unlink    lib/file_layer.c: `custom_unlink`. Merge, First and Entry are about the entries of the
--             block that an entry is removed from.
--   Transfer  lib/file_layer.c: the loops of `custom_read` and `custom_write`, which are in FileIo.
--             Content says what the bytes of a file are. In FileIo, Stored says what an operation
--             leaves that writes bytes and the inode, Append and Longer are about a write that makes
--             the file longer; Transfer/Grow is about the blocks added for it, in files with direct
--             blocks only, which Transfer/Holds describes.
--   Fuse      lib/fuse_layer.c: the handlers, with `charm_rename` in Rename. Modes is about
--             `charm_chmod` and `charm_getattr`, Listing is about `charm_readdir`. Main has the
--             table `fuse_ops` and `main`; `fuse_main` is a parameter.
--   HashTable lib/hash_table.c.
--   Samples   small states that the tests share.
--
-- The state corresponds to `m_ptr` of lib/disk_layer.c and `super_block` of lib/block_layer.c. An
-- inode is a `struct` of the caller, so a function that changes one returns it. A null pointer is
-- `none`, a use of it a fault; so is an index outside of an array where the code does not rule it
-- out. The bytes of padding of `struct iNode` are written as zeros and never read.
--
-- Bounds. Outside of Disk/Device the disk is that of the configuration without `DISK`: 100 MB, so
-- 25600 blocks, of which 2560 hold 21 inodes each. An `ssize_t` is its 64-bit pattern, compared as
-- signed and wrapping where the code adds. A `for` loop is recursion on the rounds left, with the
-- bound of the code. Fuel is taken by the `while` loop of `create_new_inode`, one unit a block:
-- with some inode not allocated, one unit for each 21 inodes before the first such one and one
-- more are enough; with none, it may go on until `visit_count` overflows, which is undefined in C
-- and wraps here. The loops over the records of a directory block have fuel for 4097 rounds, which
-- is enough, since each round moves on by at least one byte of 4096 or ends; so has the listing of
-- a directory block, which in the code does not end at a record of size 0. The search in the cache
-- has fuel for as many nodes as were ever made: one that goes on is in a cycle. Path resolution
-- has fuel for its recursion on parent paths, where more than the length of the path is enough,
-- and the copying loop of `charm_rename` for its rounds.
--
-- What malloc returns is an argument where the code tests it (`alloc_memory`) and success elsewhere.
-- What an uninitialised local variable holds is an argument (`init_inode_list`).
--
-- What `time` returns is an arbitrary sequence. `errno`, which no function here sets, is an argument of
-- `charm_rename`. `struct fuse_file_info` stands as its flags, and what `readdir` gives to `filler` as
-- a list.
--
-- Not modelled: printed messages, and `umask`; the layers above the disk layer over a block device:
-- they are modelled over the configuration without `DISK`, whose `FS_SIZE` is smaller.
pub mod Base
pub mod Bytes
pub mod Fs
pub mod Disk
pub mod FreeList
pub mod Inode
pub mod MakeFs
pub mod FilePath
pub mod FileMap
pub mod Release
pub mod Truncate
pub mod History
pub mod Directory
pub mod State
pub mod Cache
pub mod World
pub mod Resolve
pub mod Reads
pub mod Operations
pub mod Unlink
pub mod Transfer
pub mod FileIo
pub mod Fuse
pub mod HashTable
pub mod Samples
