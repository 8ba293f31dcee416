-- ===== src/Truncate/Single.antt =====
-- A file that is cut off within the range of its single indirect block.
use file_system_fuse.Base.{ℕ, ◌-◌}
use file_system_fuse.Fs.{Fs}
use file_system_fuse.FreeList.{dblocks_per_block}
use file_system_fuse.FreeList.{dblocks_per_block}
use file_system_fuse.Inode.{Inode, direct_b_count}
use file_system_fuse.Truncate.{count_to_free}

-- How many addresses go.
abbrev pub cut_count : Inode → ℕ → ℕ
cut_count inode f =
    count_to_free (f - direct_b_count) (inode.num_blocks - direct_b_count)
      (inode.num_blocks - direct_b_count)
