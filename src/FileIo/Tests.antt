-- ===== src/FileIo/Tests.antt =====
-- Reading and writing a file of two blocks whose path is in the cache.
use file_system_fuse.Base.{ℕ, ◌+◌, ◌<◌, ◌≡◌, if◌then◌else◌, ltb, arith}
use file_system_fuse.Bytes.{Block, zero_block}
use file_system_fuse.Fs.{Fs}
use file_system_fuse.Inode.Store.{inode_at}
use file_system_fuse.State.{done}
use file_system_fuse.World.{World}
use file_system_fuse.Transfer.Content.{content}
use file_system_fuse.FileIo.{custom_read, custom_write}
use file_system_fuse.FileIo.Read.{until_end, after_read, custom_read_lem}
use file_system_fuse.FileIo.Write.{touched, custom_write_lem}
use file_system_fuse.FileIo.Stored.{FileWritten}
use file_system_fuse.Samples.{
  start, start-IsGeometry, start_inode, start-IsMapped, start-Fits, name, resolved,
}
use file_system_fuse.FileIo.RoundTrip.{custom_read-custom_write}

custom_read_lem_example :
    (filled : Block) × (custom_read 1 name zero_block 100 4_090 start
      ≡ done (until_end (inode_at start.fs 5).file_size 100 4_090, filled) (after_read start 5))
    × ((k : ℕ)
        → filled k ≡ (
            if ltb k (until_end (inode_at start.fs 5).file_size 100 4_090)
            then content start.fs (λ j. 2_600 + j) (4_090 + k)
            else if ltb k 100
            then 0
            else zero_block k))
custom_read_lem_example =
    custom_read_lem 1 name start start 5 (resolved start.fs 0) start-IsGeometry (omega arith) 100
      4_090 (omega arith) zero_block start-IsMapped (rw start_inode (omega arith))
      (rw start_inode (omega arith)) (rw start_inode (omega arith)) (rw start_inode (omega arith))

abbrev sevens : Block
sevens _ = 7

custom_write_lem_example :
    (s' : Fs) × (custom_write 1 name sevens 100 4_090 start
      ≡ done 100 (record start { fs = s'; calls = 1 }))
    × FileWritten 5 2
        (λ j. 2_600 + j)
        4_090
        100
        (touched 1_000 (inode_at start.fs 5))
        sevens
        start.fs
        s'
custom_write_lem_example =
    custom_write_lem 1 name start start 5 (resolved start.fs 0) start-IsGeometry (omega arith)
      start-Fits (omega arith) 100 4_090 sevens start-IsMapped (rw start_inode (omega arith))
      (rw start_inode (omega arith)) (rw start_inode (omega arith))

written :
    (s' : Fs) × (custom_write 1 name sevens 100 4_090 start
      ≡ done 100 (record start { fs = s'; calls = 1 }))
    × FileWritten 5 2
        (λ j. 2_600 + j)
        4_090
        100
        (touched 1_000 (inode_at start.fs 5))
        sevens
        start.fs
        s'
written =
    custom_write_lem 1 name start start 5 (resolved start.fs 0) start-IsGeometry (omega arith)
      start-Fits (omega arith) 100 4_090 sevens start-IsMapped (rw start_inode (omega arith))
      (rw start_inode (omega arith)) (rw start_inode (omega arith))

-- The world after the write.
after_write : World
after_write = record start { fs = written.0; calls = 1 }

custom_read-custom_write_example :
    (filled : Block) × (custom_read 1 name zero_block 100 4_090 after_write
      ≡ done (100, filled) (after_read after_write 5))
    × ((k : ℕ) → k < 100 → filled k ≡ sevens k)
unfolding after_write
custom_read-custom_write_example =
    custom_read-custom_write 1 name start start 5 (resolved start.fs 0) start-IsGeometry
      (omega arith) start-Fits (omega arith) 100 4_090 sevens start-IsMapped
      (rw start_inode (omega arith)) (rw start_inode (omega arith)) (rw start_inode (omega arith))
      (rw start_inode (omega arith)) after_write after_write written.1 (resolved after_write.fs 1)
      zero_block
