-- ===== src/Fuse.antt =====
-- The handlers of lib/fuse_layer.c, which libfuse calls. An `int` is its 32-bit pattern. Of what
-- libfuse passes in, `struct fuse_file_info` stands as its flags; what a handler of `readdir` gives
-- to `filler` is a list. The table of the handlers and `main` are in Main.
pub mod Rename
pub mod Modes
pub mod Listing
pub mod Main
mod Tests
use Prim.Native.Nat.{bit_and, bit_or}
use file_system_fuse.Base.{
  ℕ, zero, suc, ◌+◌, ◌-◌, ◌%◌, ◌^◌, Bool, true, false, not, Option, none, some, List, [], ◌∷◌, ◌++◌,
  ◌==◌, if◌then◌else◌,
}
use file_system_fuse.Base.Ssize.{slt, sle, minus_one, add_ssize}
use file_system_fuse.Bytes.{Block, zero_block}
use file_system_fuse.Disk.{block_size}
use file_system_fuse.FreeList.{read_dblock}
use file_system_fuse.FilePath.{Chars}
use file_system_fuse.Inode.{Inode, read_inode, write_inode}
use file_system_fuse.FileMap.{fblock_num_to_dblock_num}
use file_system_fuse.Directory.{is_dir, field}
use file_system_fuse.State.{Outcome, Cmd, done, no_fuel, return, bind, ◌>>=◌, ◌>>◌}
use file_system_fuse.World.{W, on_fs, need, negative, enoent, enotdir}
use file_system_fuse.Resolve.{get_inode_num_from_path}
use file_system_fuse.Operations.{
  s_ifreg, o_creat, o_trunc, custom_mkdir, custom_mknod, custom_truncate, custom_open,
}
use file_system_fuse.Unlink.{custom_unlink}
use file_system_fuse.FileIo.{custom_read, custom_write}

-- An `ssize_t` that is returned as an `int`.
abbrev pub to_int : ℕ → ℕ
to_int n = n % 2 ^ 32

-- The members of `struct stat` that are set.
pub record Stat : Type 0 where
  pub st_ino : ℕ
  pub st_mode : ℕ
  pub st_nlink : ℕ
  pub st_uid : ℕ
  pub st_gid : ℕ
  pub st_rdev : ℕ
  pub st_size : ℕ
  pub st_blksize : ℕ
  pub st_blocks : ℕ
  pub st_atime : ℕ
  pub st_ctime : ℕ
  pub st_mtime : ℕ

-- `memset(stdbuff, 0, sizeof(struct stat))`
abbrev pub no_stat : Stat
no_stat = record {
  st_ino = 0;
  st_mode = 0;
  st_nlink = 0;
  st_uid = 0;
  st_gid = 0;
  st_rdev = 0;
  st_size = 0;
  st_blksize = 0;
  st_blocks = 0;
  st_atime = 0;
  st_ctime = 0;
  st_mtime = 0;
}

abbrev pub inode_to_stdbuff : Inode → Stat → Stat
inode_to_stdbuff inode stdbuff = record stdbuff {
  st_mode = inode.mode;
  st_nlink = inode.link_count;
  st_uid = 0;
  st_gid = 0;
  st_rdev = 0;
  st_size = inode.file_size;
  st_blksize = block_size;
  st_blocks = inode.num_blocks;
  st_atime = inode.access_time;
  st_ctime = inode.status_change_time;
  st_mtime = inode.modification_time;
}

unfoldable pub charm_access : (fuel : ℕ) → Chars → (mode : ℕ) → W ℕ
charm_access fuel path mode = do
  inode_num ← get_inode_num_from_path fuel path
  return (if inode_num == minus_one then to_int (negative enoent) else 0)

unfoldable pub charm_chown : Chars → (uid gid : ℕ) → W ℕ
charm_chown path uid gid = return 0

unfoldable pub charm_chmod : (fuel : ℕ) → Chars → (mode : ℕ) → W ℕ
charm_chmod fuel path mode = do
  inode_num ← get_inode_num_from_path fuel path
  if inode_num == minus_one then return (to_int (negative enoent)) else do
    read ← on_fs (read_inode inode_num)
    elim read [
      | none ↦ return (to_int minus_one)
      | some inode ↦ do
        written ← on_fs (write_inode inode_num (record inode { mode = mode }))
        return (if written then 0 else to_int minus_one)
    ]

-- What a handler returns for a call that says whether it went well.
abbrev pub status_of : Bool → ℕ
status_of status = if status then 0 else to_int minus_one

unfoldable pub charm_create : (fuel : ℕ) → Chars → (mode flags : ℕ) → W ℕ
charm_create fuel path mode flags = do
  status ←
      custom_mknod fuel path
        (if bit_and flags o_creat == 0 then bit_or s_ifreg 0o775 else bit_or s_ifreg mode) minus_one
  return (status_of status)

unfoldable pub charm_getattr : (fuel : ℕ) → Chars → W (ℕ × Stat)
charm_getattr fuel path = do
  inode_num ← get_inode_num_from_path fuel path
  if inode_num == minus_one then return (to_int (negative enoent), no_stat) else do
    read ← on_fs (read_inode inode_num)
    inode ← need read
    return (0, record (inode_to_stdbuff inode no_stat) { st_ino = inode_num })

unfoldable pub charm_open : (fuel : ℕ) → Chars → (flags : ℕ) → W ℕ
charm_open fuel path flags = do
  inode_num ← custom_open fuel path flags
  return (if sle inode_num minus_one then to_int minus_one else 0)

unfoldable pub charm_read : (fuel : ℕ) → Chars → Block → (size offset : ℕ) → W (ℕ × Block)
charm_read fuel path buff size offset = do
  (nbytes_read, filled) ← custom_read fuel path buff size offset
  return (to_int nbytes_read, filled)

-- The characters of a name in the `n` bytes at `p`.
unfoldable pub read_chars : (n p : ℕ) → Block → W Chars
read_chars zero p b = return []
read_chars (suc n) p b = do c ← on_fs (field 1 p b); cs ← read_chars n (p + 1) b; return (c ∷ cs)

-- The `while` loop of `charm_readdir`: what one block gives to `filler`. `next_entry_loc` is `offset`
-- at the head of the loop. An entry of size 0 makes it go on for ever.
unfoldable pub list_block : (fuel offset : ℕ) → Block → W (List (Chars × Stat))
list_block zero offset dblock = λ _. no_fuel
list_block (suc fuel) offset dblock = if not (slt offset block_size) then return [] else do
  file_inode_num ← on_fs (field 8 offset dblock)
  entry_size ← on_fs (field 8 (offset + 8) dblock)
  file_name_size ← on_fs (field 2 (offset + 16) dblock)
  file_name ← read_chars file_name_size (offset + 18) dblock
  read ← on_fs (read_inode file_inode_num)
  file_inode ← need read
  rest ← list_block fuel (add_ssize offset entry_size) dblock
  return
      ((file_name, record (inode_to_stdbuff file_inode no_stat) { st_ino = file_inode_num }) ∷ rest)

-- The `for` loop from block `fblock_num` with `n` rounds left.
unfoldable pub list_blocks : (n fblock_num : ℕ) → Inode → W (List (Chars × Stat))
list_blocks zero fblock_num inode = return []
list_blocks (suc n) fblock_num inode = do
  dblock_num ← on_fs (fblock_num_to_dblock_num inode fblock_num)
  read ← on_fs (read_dblock dblock_num)
  dblock ← need read
  entries ← list_block (block_size + 1) 0 dblock
  rest ← list_blocks n (fblock_num + 1) inode
  return (entries ++ rest)

unfoldable pub charm_readdir : (fuel : ℕ) → Chars → W (ℕ × List (Chars × Stat))
charm_readdir fuel path = do
  inode_num ← get_inode_num_from_path fuel path
  if inode_num == minus_one then return (to_int (negative enoent), []) else do
    read ← on_fs (read_inode inode_num)
    inode ← need read
    if not (is_dir inode.mode) then return (to_int (negative enotdir), []) else do
      entries ← list_blocks (if slt inode.num_blocks 0 then 0 else inode.num_blocks) 0 inode
      return (0, entries)

-- What a handler returns for a call whose only failure that it looks for is -1.
abbrev pub status_of_size : ℕ → ℕ
status_of_size status = if status == minus_one then to_int minus_one else 0

unfoldable pub charm_rmdir : (fuel : ℕ) → Chars → W ℕ
charm_rmdir fuel path = do status ← custom_unlink fuel path; return (status_of_size status)

unfoldable pub charm_mkdir : (fuel : ℕ) → Chars → (mode : ℕ) → W ℕ
charm_mkdir fuel path mode = do status ← custom_mkdir fuel path mode; return (status_of status)

unfoldable pub charm_mknod : (fuel : ℕ) → Chars → (mode dev : ℕ) → W ℕ
charm_mknod fuel path mode dev = do
  status ← custom_mknod fuel path mode dev
  return (status_of status)

unfoldable pub charm_utimens : Chars → W ℕ
charm_utimens path = return 0

unfoldable pub charm_truncate : (fuel : ℕ) → Chars → (offset : ℕ) → W ℕ
charm_truncate fuel path offset = do
  status ← custom_truncate fuel path offset
  return (status_of_size status)

unfoldable pub charm_unlink : (fuel : ℕ) → Chars → W ℕ
charm_unlink fuel path = do status ← custom_unlink fuel path; return (status_of_size status)

unfoldable pub charm_write : (fuel : ℕ) → Chars → Block → (size offset : ℕ) → W ℕ
charm_write fuel path buff size offset = do
  nbytes_wrote ← custom_write fuel path buff size offset
  return (to_int nbytes_wrote)
