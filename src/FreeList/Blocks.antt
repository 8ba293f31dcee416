-- ===== src/FreeList/Blocks.antt =====
-- `read_dblock` and `write_dblock` of a data block.
use file_system_fuse.Base.{ℕ, ◌≡◌, true, some}
use file_system_fuse.Bytes.{Block, zero_block}
use file_system_fuse.Fs.{Fs, ok, write}
use file_system_fuse.Disk.Laws.{read_block-in, write_block-in}
use file_system_fuse.FreeList.{read_dblock, write_dblock}
use file_system_fuse.FreeList.Chain.{IsDataBlock}
use file_system_fuse.FreeList.Free.{valid_dblock}

pub read_dblock-in : (d : ℕ) (s : Fs) → IsDataBlock d → read_dblock d s ≡ ok (some (s.disk d)) s
unfolding read_dblock
read_dblock-in d s h = rw (valid_dblock d h) (read_block-in d zero_block s h.1)

pub write_dblock-in :
    (d : ℕ) (c : Block) (s : Fs)
    → IsDataBlock d
    → write_dblock d c s ≡ ok true (record s { disk = write s.disk d c })
unfolding write_dblock
write_dblock-in d c s h = rw (valid_dblock d h) (write_block-in d c s h.1)
