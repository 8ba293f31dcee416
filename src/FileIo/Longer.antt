-- ===== src/FileIo/Longer.antt =====
-- `custom_write` past the end of a file that stays in its direct blocks.
mod Tests
use file_system_fuse.Base.{
  ℕ, ◌+◌, ◌-◌, ◌*◌, ◌/◌, ◌^◌, ◌<◌, ◌≤◌, ◌≡◌, ◌⊎◌, refl, ap, inl, inr, true, false, ◌==◌, ltb, arith,
  List, some,
}
use file_system_fuse.Base.Ssize.{slt, minus_one, add_ssize, sub_ssize}
use file_system_fuse.Bytes.{Block}
use file_system_fuse.Fs.{Fs, ok}
use file_system_fuse.Disk.{block_size}
use file_system_fuse.FilePath.{Chars}
use file_system_fuse.Inode.{Inode, direct_b_count}
use file_system_fuse.Inode.Store.{
  IsGeometry, IsInum, inode_at, with_inode, read_inode-at, write_inode-at,
}
use file_system_fuse.State.{done}
use file_system_fuse.World.{World}
use file_system_fuse.Resolve.{get_inode_num_from_path}
use file_system_fuse.Transfer.{span, write_span, add_blocks, rounds}
use file_system_fuse.Transfer.Holds.{Holds, Holds-IsMapped, IsGeometry-Kept}
use file_system_fuse.Transfer.Grow.{Grown, Result, grown, full, add_blocks_lem}
use file_system_fuse.Transfer.Write.{Written, write_span_lem}
use file_system_fuse.FileIo.Append.{Appended, lengthened, end-Appended}
use file_system_fuse.FileIo.{missing_blocks, missing_bytes, custom_write}

rounds_lem :
    (e n : ℕ)
    → e < direct_b_count
    → n ≤ direct_b_count
    → rounds (add_ssize (sub_ssize e n) 1) ≡ e + 1 - n
unfolding slt
rounds_lem e n h k = ground arith

-- How many blocks the file needs for its bytes up to `size`, one of which is counted even if the
-- last is full.
abbrev pub more_blocks : (size num_blocks : ℕ) → ℕ
more_blocks size num_blocks = size / block_size + 1 - num_blocks

module _ (fuel : ℕ) (path : Chars) (w w' : World) (inum : ℕ)
    (resolved : get_inode_num_from_path fuel path w ≡ done inum w')
    (geometry : IsGeometry w'.fs.super_block) (valid : IsInum inum)
    (clock : w'.now w'.calls < 2 ^ 64) (nbytes offset : ℕ) (buff : Block) {ns : List ℕ}
    {blk : ℕ → ℕ} (h : Holds (inode_at w'.fs inum) w'.fs ns blk)
    (beyond : (inode_at w'.fs inum).file_size < offset + nbytes)
    (small : offset + nbytes < direct_b_count * block_size) where
  abbrev file : Inode
  file = inode_at w'.fs inum

  abbrev added : ℕ
  added = more_blocks (offset + nbytes) file.num_blocks

  missing_lem : missing_blocks file nbytes offset ≡ added
  missing_lem =
      let sum : add_ssize offset nbytes ≡ offset + nbytes = omega (arith, small) in
      let test : ltb file.file_size (offset + nbytes) ≡ true = ground (arith, beyond) in
      rw (sum, test)
        (rounds_lem ((offset + nbytes) / block_size) file.num_blocks (omega (arith, small)) h.few)

  within : file.num_blocks + added ≤ direct_b_count
  within = omega (arith, small, h.few)

  new_size : add_ssize file.file_size (missing_bytes file nbytes offset) ≡ offset + nbytes
  new_size = ground (arith, beyond, small)

  found : (inum == minus_one) ≡ false
  found = ground (arith, valid)

  Done : Type 0
  Done =
      (s' : Fs) × (ns' : List ℕ) × (blk' : ℕ → ℕ) × (custom_write fuel path buff nbytes offset w
        ≡ done nbytes (record w' { fs = s'; calls = w'.calls + 1 }))
      × Appended inum added file blk offset nbytes (w'.now w'.calls) buff w'.fs ns s' ns' blk'

  Full : Type 0
  Full =
      (s' : Fs) × (custom_write fuel path buff nbytes offset w
        ≡ done minus_one (record w' { fs = s' }))
      × (s'.super_block.free_list_head ≡ 0)

  -- With the blocks added and the bytes written.
  stored :
      {new : Inode} {s1 s2 : Fs} {ms : List ℕ} {blk' : ℕ → ℕ}
      → add_blocks added file w'.fs ≡ ok (some new) s1
      → Grown added file w'.fs ns blk new s1 ms blk'
      → write_span (span offset nbytes) nbytes new buff s1 ≡ ok true s2
      → Written new.num_blocks blk' offset nbytes buff s1 s2
      → Done
  unfolding custom_write Done
  stored {new} {s1} {s2} {ms} {blk'} run g wrote written =
      let t = w'.now w'.calls in
      let size : new.file_size ≡ file.file_size = ap (λ (i : Inode). i.file_size) g.members in
      let sum : add_ssize new.file_size (missing_bytes file nbytes offset) ≡ offset + nbytes =
        rw size new_size in
      let g2 : IsGeometry s2.super_block = rw (written.super) (IsGeometry-Kept geometry g.kept) in
      let longer : Inode = lengthened t (offset + nbytes) new in
      (
        with_inode s2 inum longer,
        ms,
        blk',
        rw
            (
              resolved,
              found,
              read_inode-at w'.fs inum geometry valid,
              missing_lem,
              run,
              wrote,
              sum,
              write_inode-at s2 inum longer g2 valid,
            )
            refl,
        end-Appended inum offset nbytes buff geometry valid h small g (omega arith) t clock written,
      )

  finish : Result added file w'.fs ns blk → Done ⊎ Full
  unfolding custom_write Full
  finish (full s1 run e) =
      inr (
        s1,
        rw (resolved, found, read_inode-at w'.fs inum geometry valid, missing_lem, run) refl,
        e,
      )
  finish (grown new s1 ms blk' run g) =
      let count : new.num_blocks ≡ file.num_blocks + added =
        ap (λ (i : Inode). i.num_blocks) g.members in
      let (s2, wrote, written) =
        write_span_lem (Holds-IsMapped g.holds) offset buff nbytes (omega (arith, small))
          (omega (arith, count)) in
      inl (stored run g wrote written)

  -- A write that ends behind the end of a file, within the range of the direct blocks, where the
  -- file has none but direct blocks, which are not free: either `custom_write` returns the number
  -- of bytes, the blocks that are missing up to the end of the write have been added, the bytes are
  -- in the file, its other bytes are as before, those in new blocks 0, it has the new size and
  -- times, and no other inode and no other block in use changes; or it returns -1 and the free list
  -- has become empty.
  pub custom_write-Appended :
      ((s' : Fs) × (ns' : List ℕ) × (blk' : ℕ → ℕ) × (custom_write fuel path buff nbytes offset w
          ≡ done nbytes (record w' { fs = s'; calls = w'.calls + 1 }))
        × Appended inum
            (more_blocks (offset + nbytes) (inode_at w'.fs inum).num_blocks)
            (inode_at w'.fs inum)
            blk
            offset
            nbytes
            (w'.now w'.calls)
            buff
            w'.fs
            ns
            s'
            ns'
            blk')
      ⊎ ((s' : Fs) × (custom_write fuel path buff nbytes offset w
            ≡ done minus_one (record w' { fs = s' }))
          × (s'.super_block.free_list_head ≡ 0))
  unfolding Done Full
  custom_write-Appended = finish (add_blocks_lem added h within)
