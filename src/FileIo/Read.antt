-- ===== src/FileIo/Read.antt =====
-- What `custom_read` returns for a file whose blocks are mapped.
use file_system_fuse.Base.{
  ℕ, ◌+◌, ◌-◌, ◌/◌, ◌^◌, ◌<◌, ◌≤◌, ◌≡◌, ◌≢◌, refl, false, ◌==◌, if◌then◌else◌, ltb, arith,
}
use file_system_fuse.Base.Ssize.{minus_one}
use file_system_fuse.Bytes.{Block}
use file_system_fuse.Disk.{block_size}
use file_system_fuse.FilePath.{Chars}
use file_system_fuse.Inode.Store.{
  IsGeometry, IsInum, inode_at, with_inode, read_inode-at, write_inode-at,
}
use file_system_fuse.State.{done}
use file_system_fuse.World.{World}
use file_system_fuse.Resolve.{get_inode_num_from_path}
use file_system_fuse.Transfer.Content.{IsMapped, content}
use file_system_fuse.Transfer.Read.{read_span_lem}
use file_system_fuse.FileIo.{cleared, available, custom_read}

-- Before the end of the file.
abbrev pub until_end : (file_size nbytes offset : ℕ) → ℕ
until_end file_size nbytes offset =
    if ltb file_size (offset + nbytes) then file_size - offset else nbytes

-- The world after a read: the inode has the time of the read.
abbrev pub after_read : World → (inum : ℕ) → World
after_read w inum = record w {
  fs = with_inode w.fs inum (record (inode_at w.fs inum) { access_time = w.now w.calls });
  calls = w.calls + 1;
}

module _ (fuel : ℕ) (path : Chars) (w w' : World) (inum : ℕ)
    (resolved : get_inode_num_from_path fuel path w ≡ done inum w')
    (geometry : IsGeometry w'.fs.super_block) (valid : IsInum inum) (nbytes offset : ℕ)
    (small : offset + nbytes < 2 ^ 63) (buff : Block) where
  found : (inum == minus_one) ≡ false
  found = ground (arith, valid)

  module _ {n : ℕ} {blk : ℕ → ℕ} (f : IsMapped (inode_at w'.fs inum) w'.fs n blk)
      (inside : offset ≤ (inode_at w'.fs inum).file_size)
      (some_bytes : (inode_at w'.fs inum).file_size ≢ 0)
      (big : (inode_at w'.fs inum).file_size < 2 ^ 63)
      (long : (inode_at w'.fs inum).file_size / block_size < n) where
    size : ℕ
    size = until_end (inode_at w'.fs inum).file_size nbytes offset

    size_lem : available (inode_at w'.fs inum).file_size nbytes offset ≡ size
    unfolding size
    size_lem = ground (arith, small, inside, big)

    not_empty : ((inode_at w'.fs inum).file_size == 0) ≡ false
    not_empty = ground (arith, some_bytes)

    not_behind : ltb (inode_at w'.fs inum).file_size offset ≡ false
    not_behind = ground (arith, inside)

    bounds : (offset + size ≤ (inode_at w'.fs inum).file_size) × (size ≤ nbytes)
    unfolding size
    bounds = (ground (arith, inside), ground (arith, inside))

    -- For a file that is not empty, with its blocks mapped, and an offset within it, `custom_read`
    -- returns the number of bytes up to the end of the file, or as many as were asked for, and these
    -- bytes; the buffer is cleared behind them as far as was asked for. The inode gets the time.
    pub custom_read_lem :
        (filled : Block) × (custom_read fuel path buff nbytes offset w
          ≡ done
              (until_end (inode_at w'.fs inum).file_size nbytes offset, filled)
              (after_read w' inum))
        × ((k : ℕ)
            → filled k ≡ (
                if ltb k (until_end (inode_at w'.fs inum).file_size nbytes offset)
                then content w'.fs blk (offset + k)
                else if ltb k nbytes
                then 0
                else buff k))
    unfolding custom_read size
    custom_read_lem =
        let (filled, run, bytes) =
          read_span_lem f offset size (omega (arith, small, bounds)) (omega (arith, long, bounds))
            (cleared nbytes buff) in
        (
          filled,
          rw
              (
                resolved,
                found,
                read_inode-at w'.fs inum geometry valid,
                not_empty,
                not_behind,
                size_lem,
                run,
                write_inode-at w'.fs inum
                    (record (inode_at w'.fs inum) { access_time = w'.now w'.calls }) geometry valid,
              )
              refl,
          bytes,
        )
