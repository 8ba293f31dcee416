-- ===== src/Operations.antt =====
-- The operations of lib/file_layer.c that make, open and cut off files, and `init_file_layer`. The
-- fuel is that of Resolve. The bits of modes and flags are those of Linux.
pub mod Dots
pub mod Root
pub mod Cut
pub mod NewFile
pub mod Mknod
mod MknodTests
mod Tests
use Prim.Native.Nat.{bit_and, bit_or}
use file_system_fuse.Base.{
  ℕ, ◌+◌, ◌/◌, ◌%◌, Bool, true, false, not, ◌&&◌, Option, none, some, [], ◌∷◌, ◌==◌, if◌then◌else◌,
  ltb, leb,
}
use file_system_fuse.Base.Ssize.{slt, sle, minus_one, add_ssize}
use file_system_fuse.Bytes.{Block}
use file_system_fuse.Disk.{block_size}
use file_system_fuse.FreeList.{read_dblock, write_dblock}
use file_system_fuse.FilePath.{Chars}
use file_system_fuse.Inode.{Inode, read_inode, write_inode}
use file_system_fuse.MakeFs.{make_fs}
use file_system_fuse.FileMap.{fblock_num_to_dblock_num}
use file_system_fuse.Truncate.{remove_dblocks_from_inode}
use file_system_fuse.Directory.{add_new_entry}
use file_system_fuse.State.{return, ◌>>=◌, ◌>>◌}
use file_system_fuse.Cache.{create_cache}
use file_system_fuse.World.{W, on_fs, on_cache, time, need}
use file_system_fuse.Resolve.{root_inode, get_inode_num_from_path, create_new_file}

-- `S_IFDIR`, `S_IFREG`, and `DEFAULT_PERMS`, which is S_IRWXU | S_IRWXG | S_IROTH | S_IXOTH.
abbrev pub s_ifdir : ℕ
s_ifdir = 0o040000

abbrev pub s_ifreg : ℕ
s_ifreg = 0o100000

abbrev pub default_perms : ℕ
default_perms = 0o775

-- `O_CREAT` and `O_TRUNC`
abbrev pub o_creat : ℕ
o_creat = 0o100

abbrev pub o_trunc : ℕ
o_trunc = 0o1000

-- `CACHE_SIZE`
abbrev pub cache_size : ℕ
cache_size = 50_000

-- The names of a directory itself and of its parent.
abbrev pub dot : Chars
dot = b'.' ∷ []

abbrev pub dot_dot : Chars
dot_dot = b'.' ∷ b'.' ∷ []

-- The two entries of a new directory. As in the code both have the number of the directory itself.
unfoldable pub add_dots : (inode_num : ℕ) → Inode → W (Bool × Inode)
add_dots inode_num inode = do
  (entered, changed) ← on_fs (add_new_entry inode inode_num dot)
  if entered then on_fs (add_new_entry changed inode_num dot_dot) else return (false, changed)

unfoldable pub custom_mkdir : (fuel : ℕ) → Chars → (mode : ℕ) → W Bool
custom_mkdir fuel path mode = do
  (child_inode_num, child) ← create_new_file fuel path (bit_or s_ifdir mode)
  if sle child_inode_num minus_one then return false else do
    child_inode ← need child
    (entered, changed) ← add_dots child_inode_num child_inode
    if not entered then return false else on_fs (write_inode child_inode_num changed)

-- `dev` is not used.
unfoldable pub custom_mknod : (fuel : ℕ) → Chars → (mode dev : ℕ) → W Bool
custom_mknod fuel path mode dev = do
  (child_inode_num, child) ← create_new_file fuel path mode
  if sle child_inode_num minus_one
      then return false
      else do child_inode ← need child; on_fs (write_inode child_inode_num child_inode)

-- `memset(dblock_buff + offset, 0, BLOCK_SIZE - offset)`
unfoldable pub clear_from : ℕ → Block → Block
clear_from offset b p = if leb offset p && ltb p block_size then 0 else b p

-- The end of `custom_truncate`, with the blocks behind the cut removed. The results of the writes
-- are not looked at.
unfoldable pub cut_last : (inode_num offset : ℕ) → Inode → W ℕ
cut_last inode_num offset inode = do
  dblock_num ← on_fs (fblock_num_to_dblock_num inode (offset / block_size))
  if sle dblock_num 0 then return minus_one else do
    read ← on_fs (read_dblock dblock_num)
    dblock_buff ← need read
    on_fs (write_dblock dblock_num (clear_from (offset % block_size) dblock_buff))
    on_fs (write_inode inode_num (record inode { file_size = offset }))
    return 0

-- `offset` is a `size_t`, so it is compared as unsigned.
unfoldable pub custom_truncate : (fuel : ℕ) → Chars → (offset : ℕ) → W ℕ
custom_truncate fuel path offset = do
  inode_num ← get_inode_num_from_path fuel path
  if inode_num == minus_one then return minus_one else do
    read ← on_fs (read_inode inode_num)
    inode ← need read
    if ltb inode.file_size offset
        then return minus_one
        else if (offset == 0) && (inode.file_size == 0)
        then return 0
        else if slt (offset / block_size + 1) inode.num_blocks
        then (do
          (removed, cut) ← on_fs (remove_dblocks_from_inode inode (offset / block_size + 1))
          cut_last inode_num offset cut)
        else cut_last inode_num offset inode

-- The first part of `custom_open`: the number of the file, made if it is not there and `O_CREAT` is
-- set; `none` where the function returns -1.
unfoldable pub open_or_create : (fuel : ℕ) → Chars → (oflag : ℕ) → W (Option ℕ)
open_or_create fuel path oflag = do
  inode_num ← get_inode_num_from_path fuel path
  if not (bit_and oflag o_creat == 0) && sle inode_num minus_one
      then (do
        (child_inode_num, child) ← create_new_file fuel path (bit_or s_ifreg default_perms)
        if sle child_inode_num minus_one then return none else do
          inode ← need child
          on_fs (write_inode child_inode_num inode)
          return (some child_inode_num))
      else return (some inode_num)

unfoldable pub custom_open : (fuel : ℕ) → Chars → (oflag : ℕ) → W ℕ
custom_open fuel path oflag = do
  opened ← open_or_create fuel path oflag
  elim opened [
    | none ↦ return minus_one
    | some inode_num ↦ if bit_and oflag o_trunc == 0 then return inode_num else do
      status ← custom_truncate fuel path 0
      return (if status == minus_one then minus_one else inode_num)
  ]

unfoldable pub custom_close : (file_descriptor : ℕ) → W ℕ
custom_close file_descriptor = return 0

-- The root's inode as `init_file_layer` sets it up.
unfoldable pub root_of : (curr_time : ℕ) → Inode → Inode
root_of curr_time root = record root {
  allocated = true;
  link_count = add_ssize root.link_count 1;
  mode = bit_or s_ifdir default_perms;
  num_blocks = 0;
  file_size = 0;
  access_time = curr_time;
  creation_time = curr_time;
  modification_time = curr_time;
  status_change_time = curr_time;
}

-- The arguments are those of `make_fs`.
unfoldable pub init_file_layer : (given : Bool) (junk : Inode) → W Bool
init_file_layer given junk = do
  made ← on_fs (make_fs given junk)
  if not made then return false else do
    read ← on_fs (read_inode root_inode)
    elim read [
      | none ↦ return false
      | some root ↦ do
        curr_time ← time
        (entered, changed) ← add_dots root_inode (root_of curr_time root)
        if not entered then return false else do
          written ← on_fs (write_inode root_inode changed)
          if not written then return false else do on_cache (create_cache cache_size); return true
    ]
