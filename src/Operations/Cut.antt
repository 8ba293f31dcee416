-- ===== src/Operations/Cut.antt =====
-- `custom_truncate` within the last block of a file.
use file_system_fuse.Base.{
  ℕ, ◌+◌, ◌-◌, ◌/◌, ◌%◌, ◌^◌, ◌<◌, ◌≤◌, ◌≡◌, ◌≢◌, refl, ap, fun_ext, subst, false, ◌==◌, zero_add,
  if◌then◌else◌, ltb, leb, ◌&&◌, arith,
}
use file_system_fuse.Base.Ssize.{slt, sle, minus_one}
use file_system_fuse.Bytes.{Block, zero_block}
use file_system_fuse.Fs.{Fs, write}
use file_system_fuse.Disk.{block_size}
use file_system_fuse.FreeList.Blocks.{read_dblock-in, write_dblock-in}
use file_system_fuse.FilePath.{Chars}
use file_system_fuse.Inode.{Inode, to_words}
use file_system_fuse.Inode.Layout.{Fits, other_tail}
use file_system_fuse.Inode.Store.{
  IsGeometry, IsInum, inode_at, with_inode, read_inode-at, write_inode-at,
}
use file_system_fuse.State.{done}
use file_system_fuse.World.{World}
use file_system_fuse.Resolve.{get_inode_num_from_path}
use file_system_fuse.Transfer.{paste}
use file_system_fuse.Transfer.Content.{IsMapped}
use file_system_fuse.Transfer.Write.{Written, with_piece, with_piece-Written, start-Written}
use file_system_fuse.FileIo.Stored.{FileWritten, with_inode-FileWritten}
use file_system_fuse.Operations.{clear_from, cut_last, custom_truncate}

-- The inode of a file that is cut off.
abbrev pub cut_to : (offset : ℕ) → Inode → Inode
cut_to offset inode = record inode { file_size = offset }

cut_to-Fits :
    (offset : ℕ) (inode : Inode) → offset < 2 ^ 64 → Fits inode → Fits (cut_to offset inode)
unfolding to_words
cut_to-Fits offset inode h f = record {
  directs = f.directs;
  words = other_tail inode.direct_blocks _ _ f.words (λ t. omega (arith, t, h));
  mode = f.mode;
}

-- Clearing the end of a block is putting zeros there.
paste-clear_from :
    (b : Block) (o : ℕ) → o ≤ block_size → paste b o zero_block 0 (block_size - o) ≡ clear_from o b
unfolding paste clear_from
paste-clear_from b o h =
    let end : o + (block_size - o) ≡ block_size = omega (arith, h) in
    fun_ext (λ p. ap (λ e. if leb o p && ltb p e then 0 else b p) end)

module _ (fuel : ℕ) (path : Chars) (w w' : World) (inum : ℕ)
    (resolved : get_inode_num_from_path fuel path w ≡ done inum w')
    (geometry : IsGeometry w'.fs.super_block) (valid : IsInum inum)
    (fits : Fits (inode_at w'.fs inum)) (offset : ℕ) {n : ℕ} {blk : ℕ → ℕ}
    (f : IsMapped (inode_at w'.fs inum) w'.fs n blk)
    (inside : offset ≤ (inode_at w'.fs inum).file_size)
    (some_bytes : (inode_at w'.fs inum).file_size ≢ 0) (small : offset < 2 ^ 63)
    (in_last : (inode_at w'.fs inum).num_blocks ≤ offset / block_size + 1)
    (long : offset / block_size < n) where
  found : (inum == minus_one) ≡ false
  found = ground (arith, valid)

  not_behind : ltb (inode_at w'.fs inum).file_size offset ≡ false
  not_behind = ground (arith, inside)

  not_empty : ((offset == 0) && ((inode_at w'.fs inum).file_size == 0)) ≡ false
  not_empty = ground (arith, some_bytes)

  no_blocks : slt (offset / block_size + 1) (inode_at w'.fs inum).num_blocks ≡ false
  unfolding slt
  no_blocks = ground (arith, in_last, small)

  -- With the end of the block cleared.
  abbrev cleared_end : Fs
  cleared_end = record (w'.fs) {
    disk =
        write w'.fs.disk (blk (offset / block_size))
          (clear_from (offset % block_size) (w'.fs.disk (blk (offset / block_size))));
  }

  cleared_end-Written :
      Written n blk offset (block_size - offset % block_size) zero_block w'.fs cleared_end
  cleared_end-Written =
      let q : ℕ = offset / block_size in
      let from : ℕ = offset % block_size in
      let piece =
        with_piece-Written f offset zero_block q from 0 (block_size - from) w'.fs long (omega arith)
          (omega arith) (start-Written f offset zero_block) in
      subst
        (λ b.
          Written n blk offset (block_size - from) zero_block w'.fs
            (record (w'.fs) { disk = write w'.fs.disk (blk q) b }))
        (paste-clear_from (w'.fs.disk (blk q)) from (omega arith))
        (subst
          (λ size.
            Written n blk offset size zero_block w'.fs
              (with_piece f offset zero_block q from 0 (block_size - from) w'.fs))
          (zero_add (block_size - from)) piece)

  cut_run :
      cut_last inum offset (inode_at w'.fs inum) w'
      ≡ done 0
          (record w' { fs = with_inode cleared_end inum (cut_to offset (inode_at w'.fs inum)) })
  unfolding cut_last
  cut_run =
      let q : ℕ = offset / block_size in
      let in_data = f.data_block q long in
      let positive : sle (blk q) 0 ≡ false = unfold sle in ground (arith, in_data) in
      rw
        (
          f.lookup w'.fs (λ m d h. refl) q long,
          positive,
          read_dblock-in (blk q) w'.fs in_data,
          write_dblock-in (blk q) (clear_from (offset % block_size) (w'.fs.disk (blk q))) w'.fs
              in_data,
          write_inode-at cleared_end inum (cut_to offset (inode_at w'.fs inum)) geometry valid,
        )
        refl

  -- Cutting a file that is not empty and whose blocks are mapped off in its last block returns 0, and
  -- clears the bytes of the block from the cut on; the inode has the new size, and no other byte of
  -- the file, no other inode and no other data block changes.
  pub custom_truncate_lem :
      (s' : Fs) × (custom_truncate fuel path offset w ≡ done 0 (record w' { fs = s' }))
      × FileWritten inum n blk offset
          (block_size - offset % block_size)
          (cut_to offset (inode_at w'.fs inum))
          zero_block
          w'.fs
          s'
  unfolding custom_truncate
  custom_truncate_lem = (
    with_inode cleared_end inum (cut_to offset (inode_at w'.fs inum)),
    rw (resolved, found, read_inode-at w'.fs inum geometry valid, not_behind, not_empty, no_blocks)
        cut_run,
    with_inode-FileWritten w'.fs cleared_end n blk geometry inum offset
        (block_size - offset % block_size) (cut_to offset (inode_at w'.fs inum)) zero_block valid
        (cut_to-Fits offset (inode_at w'.fs inum) (omega (arith, small)) fits) f
        cleared_end-Written,
  )
