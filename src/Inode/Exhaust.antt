-- ===== src/Inode/Exhaust.antt =====
-- When `create_new_inode` goes round and round.
use file_system_fuse.Base.{ℕ, ◌/◌, ◌<◌, ◌≤◌, ◌≡◌, true}
use file_system_fuse.Disk.{block_size}
use file_system_fuse.Fs.{Fs}
use file_system_fuse.FreeList.{inode_b_count}
use file_system_fuse.Inode.{inode_size, load_inode}

-- Each inode of the disk is marked as allocated.
abbrev pub AllAllocated : Fs → Type 0
AllAllocated s =
    (b o : ℕ)
    → b ≤ inode_b_count
    → o < block_size / inode_size
    → (load_inode (s.disk b) o).allocated ≡ true
