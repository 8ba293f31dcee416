-- ===== src/Unlink.antt =====
-- `custom_unlink` of lib/file_layer.c, for files and for directories without entries.
pub mod Merge
pub mod First
pub mod Entry
mod Tests
use file_system_fuse.Base.{
  ℕ, ◌+◌, ◌-◌, ◌^◌, Bool, true, false, not, ◌&&◌, Option, none, some, ◌==◌, if◌then◌else◌, ltb, leb,
}
use file_system_fuse.Base.Ssize.{sle, minus_one, add_ssize, sub_ssize}
use file_system_fuse.Bytes.{Block, load, store}
use file_system_fuse.Fs
use file_system_fuse.Fs.{Fs, M, fault, pure}
use file_system_fuse.Disk.{block_size}
use file_system_fuse.FreeList.{write_dblock, free_dblock}
use file_system_fuse.FilePath.{Chars, get_parent_path, get_child_name}
use file_system_fuse.Inode.{Inode, read_inode, write_inode}
use file_system_fuse.FileMap.{fblock_num_to_dblock_num, write_dblock_to_inode}
use file_system_fuse.Release.{free_inode}
use file_system_fuse.Directory.{
  FilePos, size_at, length_at, name_at, is_dir, access, field, find_file, is_empty_dir,
}
use file_system_fuse.State.{Outcome, Cmd, done, return, bind, ◌>>=◌, ◌>>◌}
use file_system_fuse.Cache.{pop_cache}
use file_system_fuse.World.{W, on_fs, on_cache, time, need, negative, eexist, einval, enotempty}
use file_system_fuse.Resolve.{get_inode_num_from_path}

-- `memcpy(dst, dst + from, n)`, which is not defined if the two overlap.
unfoldable pub copy_down : (from n : ℕ) → Block → Block
copy_down from n b p = if ltb p n then b (from + p) else b p

-- The size of the record at `p` grows by `more`.
unfoldable pub grow_record : (p more : ℕ) → Block → M Block
grow_record p more b =
    Fs.◌>>=◌ (field 8 (p + size_at) b) λ size. pure (store 8 b (p + size_at) (add_ssize size more))

-- The first record of a block, of size `next`, is replaced by the one behind it.
unfoldable pub replace_first : (next : ℕ) → Block → M Block
replace_first next b = Fs.◌>>=◌ (field 2 (next + length_at) b) λ name_length.
    Fs.◌>>=◌ (access (next + name_at + name_length)) λ _.
      if ltb next (name_at + name_length)
      then (λ _. fault)
      else grow_record 0 next (copy_down next (name_at + name_length) b)

-- The block of a directory whose only record goes: it is freed, and the last block takes its place.
-- `none` where the function returns -1.
unfoldable pub drop_block : Inode → FilePos → W (Option Inode)
drop_block parent_inode file = do
  end_dblock_num ←
      on_fs (fblock_num_to_dblock_num parent_inode (sub_ssize parent_inode.num_blocks 1))
  curr_dblock_num ← on_fs (fblock_num_to_dblock_num parent_inode file.fblock_num)
  if sle curr_dblock_num 0 then return none else if sle end_dblock_num 0 then return none else do
    on_fs (free_dblock curr_dblock_num)
    (replaced, changed) ← on_fs (write_dblock_to_inode parent_inode file.fblock_num end_dblock_num)
    return (some (record changed { num_blocks = sub_ssize changed.num_blocks 1 }))

-- The entry goes from the directory. The results of the writes are not looked at.
unfoldable pub remove_entry : Inode → FilePos → W (Option Inode)
remove_entry parent_inode file = do
  next ← on_fs (field 8 (file.start_pos + size_at) file.dblock)
  if not (file.prev_entry == minus_one)
      then (do
        b ← on_fs (grow_record file.prev_entry next file.dblock)
        on_fs (write_dblock file.dblock_num b)
        return (some parent_inode))
      else if (file.start_pos == 0) && not (next == block_size)
      then (do
        b ← on_fs (replace_first next file.dblock)
        on_fs (write_dblock file.dblock_num b)
        return (some parent_inode))
      else if file.start_pos == 0
      then drop_block parent_inode file
      else return (some parent_inode)

-- The end: the file has a link less, and is freed with its last one; the directory is written.
unfoldable pub drop_link : Chars → (inum parent_inode_num : ℕ) → Inode → Inode → W ℕ
drop_link path inum parent_inode_num inode parent_inode = do
  curr_time ← time
  if sub_ssize inode.link_count 1 == 0
      then (do on_cache (pop_cache (some path)); on_fs (free_inode inum))
      else on_fs (
          write_inode inum (record inode {
            link_count = sub_ssize inode.link_count 1;
            status_change_time = curr_time;
          }))
  on_fs (
      write_inode parent_inode_num (record parent_inode {
        access_time = curr_time;
        modification_time = curr_time;
        status_change_time = curr_time;
      }))
  return 0

-- The middle: the entry is found in the directory of the parent, and removed.
unfoldable pub unlink_child : (fuel : ℕ) → Chars → (inum : ℕ) → Inode → W ℕ
unlink_child fuel path inum inode = elim (get_parent_path path) [
  | none ↦ return (negative einval)
  | some parent_path ↦ do
    parent_inode_num ← get_inode_num_from_path fuel parent_path
    if parent_inode_num == minus_one then return minus_one else do
      read ← on_fs (read_inode parent_inode_num)
      elim (get_child_name path) [
        | none ↦ return minus_one
        | some child_name ↦ do
          parent_inode ← need read
          found ← on_fs (find_file child_name parent_inode)
          elim found [
            | none ↦ return minus_one
            | some file ↦ do
              removed ← remove_entry parent_inode file
              elim removed [
                | none ↦ return minus_one
                | some changed ↦ drop_link path inum parent_inode_num inode changed
              ]
          ]
      ]
]

-- Whether the file is a directory with entries besides its own two.
unfoldable pub is_full_dir : Inode → M Bool
is_full_dir inode =
    if is_dir inode.mode
    then Fs.◌>>=◌ (is_empty_dir inode) (λ empty. pure (not empty))
    else pure false

unfoldable pub custom_unlink : (fuel : ℕ) → Chars → W ℕ
custom_unlink fuel path = do
  inum ← get_inode_num_from_path fuel path
  if inum == minus_one then return (negative eexist) else do
    read ← on_fs (read_inode inum)
    inode ← need read
    full ← on_fs (is_full_dir inode)
    if full then return (negative enotempty) else unlink_child fuel path inum inode
