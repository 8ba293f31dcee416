-- ===== src/Disk.antt =====
-- lib/disk_layer.c with include/disk_layer.h, in the configuration without `DISK`: the disk is
-- memory of 100 MB; Device is the other configuration. A block id is an `ssize_t`. A buffer is a
-- pointer, which may be null (`none`).
pub mod Laws
pub mod Device
mod Memory
use file_system_fuse.Base.{ℕ, ◌/◌, Bool, true, false, ◌||◌, Option, none, some, if◌then◌else◌}
use file_system_fuse.Base.Ssize.{slt, sle}
use file_system_fuse.Bytes.{Block, zero_block}
use file_system_fuse.Fs.{Fs, M, ok, pure, write}

-- `FS_SIZE`
abbrev pub fs_size : ℕ
fs_size = 104_857_600

-- `BLOCK_SIZE`
abbrev pub block_size : ℕ
block_size = 4096

-- `BLOCK_COUNT`
abbrev pub block_count : ℕ
block_count = fs_size / block_size

-- The argument is whether `malloc` gives the memory.
unfoldable pub alloc_memory : Bool → M Bool
alloc_memory given s = if given then ok true (record s { disk = λ _. zero_block }) else ok false s

-- A local array that a call is to fill; what it holds before is not read.
abbrev pub scratch : Option Block
scratch = some zero_block

-- The buffer as it is filled, or `none` where the function returns false.
unfoldable pub read_block : ℕ → Option Block → M (Option Block)
read_block block_id none s = ok none s
read_block block_id (some buffer) s =
    if slt block_id 0 || sle block_count block_id then ok none s else ok (some (s.disk block_id)) s

unfoldable pub write_block : ℕ → Option Block → M Bool
write_block block_id none s = ok false s
write_block block_id (some buffer) s =
    if slt block_id 0 || sle block_count block_id
    then ok false s
    else ok true (record s { disk = write s.disk block_id buffer })
