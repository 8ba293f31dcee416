-- ===== src/FileIo/Write.antt =====
-- `custom_write` where the bytes lie within the file: no blocks are added.
use file_system_fuse.Base.{ℕ, ◌+◌, ◌/◌, ◌^◌, ◌<◌, ◌≤◌, ◌≡◌, refl, false, ◌==◌, arith}
use file_system_fuse.Base.Ssize.{minus_one, add_ssize}
use file_system_fuse.Bytes.{Block}
use file_system_fuse.Fs.{Fs}
use file_system_fuse.Disk.{block_size}
use file_system_fuse.FilePath.{Chars}
use file_system_fuse.Inode.{Inode, to_words}
use file_system_fuse.Inode.Layout.{other_tail, Fits}
use file_system_fuse.Inode.Store.{
  IsGeometry, IsInum, inode_at, with_inode, read_inode-at, write_inode-at,
}
use file_system_fuse.State.{done}
use file_system_fuse.World.{World}
use file_system_fuse.Resolve.{get_inode_num_from_path}
use file_system_fuse.Transfer.{add_blocks}
use file_system_fuse.Transfer.Content.{IsMapped}
use file_system_fuse.Transfer.Write.{write_span_lem}
use file_system_fuse.FileIo.Stored.{FileWritten, with_inode-FileWritten}
use file_system_fuse.FileIo.{add_blocks, missing_blocks, missing_bytes, custom_write}

-- The inode of a file after a write that does not make it longer.
abbrev pub touched : (time : ℕ) → Inode → Inode
touched time inode = record inode {
  access_time = time;
  modification_time = time;
  status_change_time = time;
}

touched-Fits : (time : ℕ) (inode : Inode) → time < 2 ^ 64 → Fits inode → Fits (touched time inode)
unfolding to_words
touched-Fits time inode h f = record {
  directs = f.directs;
  words = other_tail inode.direct_blocks _ _ f.words (λ t. omega (arith, t, h));
  mode = f.mode;
}

module _ (fuel : ℕ) (path : Chars) (w w' : World) (inum : ℕ)
    (resolved : get_inode_num_from_path fuel path w ≡ done inum w')
    (geometry : IsGeometry w'.fs.super_block) (valid : IsInum inum)
    (fits : Fits (inode_at w'.fs inum)) (clock : w'.now w'.calls < 2 ^ 64) (nbytes offset : ℕ)
    (buff : Block) {n : ℕ} {blk : ℕ → ℕ} (f : IsMapped (inode_at w'.fs inum) w'.fs n blk)
    (inside : offset + nbytes ≤ (inode_at w'.fs inum).file_size)
    (big : (inode_at w'.fs inum).file_size < 2 ^ 63)
    (long : (inode_at w'.fs inum).file_size / block_size < n) where
  found : (inum == minus_one) ≡ false
  found = ground (arith, valid)

  no_blocks : missing_blocks (inode_at w'.fs inum) nbytes offset ≡ 0
  no_blocks = ground (arith, inside, big)

  same_size :
      add_ssize (inode_at w'.fs inum).file_size (missing_bytes (inode_at w'.fs inum) nbytes offset)
      ≡ (inode_at w'.fs inum).file_size
  same_size = ground (arith, inside, big)

  -- For a write that lies within a file whose blocks are mapped, `custom_write` returns the number
  -- of bytes, puts them into the file and gives its inode new times, and changes no other byte of
  -- the file, no other inode and no other data block.
  pub custom_write_lem :
      (s' : Fs) × (custom_write fuel path buff nbytes offset w
        ≡ done nbytes (record w' { fs = s'; calls = w'.calls + 1 }))
      × FileWritten inum n blk offset nbytes
          (touched (w'.now w'.calls) (inode_at w'.fs inum))
          buff
          w'.fs
          s'
  unfolding custom_write add_blocks
  custom_write_lem =
      let (s1, run, written) =
        write_span_lem f offset buff nbytes (omega (arith, inside, big))
          (omega (arith, inside, long)) in
      let t = w'.now w'.calls in
      let new = touched t (inode_at w'.fs inum) in
      let g1 : IsGeometry s1.super_block = rw (written.super) geometry in
      (
        with_inode s1 inum new,
        rw
            (
              resolved,
              found,
              read_inode-at w'.fs inum geometry valid,
              no_blocks,
              run,
              same_size,
              write_inode-at s1 inum new g1 valid,
            )
            refl,
        with_inode-FileWritten w'.fs s1 n blk geometry inum offset nbytes new buff valid
            (touched-Fits t (inode_at w'.fs inum) clock fits) f written,
      )
