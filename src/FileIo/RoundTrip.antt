-- ===== src/FileIo/RoundTrip.antt =====
-- Bytes that are written within a file are read back.
use file_system_fuse.Base.{ℕ, ◌+◌, ◌-◌, ◌/◌, ◌^◌, ◌<◌, ◌≤◌, ◌≡◌, ◌≢◌, ◌∙◌, refl, ap, arith, sym}
use file_system_fuse.Bytes.{Block}
use file_system_fuse.Fs.{Fs}
use file_system_fuse.Disk.{block_size}
use file_system_fuse.FilePath.{Chars}
use file_system_fuse.Inode.{Inode}
use file_system_fuse.Inode.Layout.{Fits}
use file_system_fuse.Inode.Store.{IsGeometry, IsInum, inode_at}
use file_system_fuse.FileMap.{fblock_num_to_dblock_num}
use file_system_fuse.State.{Outcome, done, crash, no_fuel}
use file_system_fuse.World.{World}
use file_system_fuse.Resolve.{get_inode_num_from_path}
use file_system_fuse.Resolve.Kept.{resolution_reads}
use file_system_fuse.Transfer.Content.{IsMapped, content}
use file_system_fuse.FileIo.{custom_read, custom_write}
use file_system_fuse.FileIo.Read.{until_end, after_read, custom_read_lem}
use file_system_fuse.FileIo.Write.{touched, custom_write_lem}
use file_system_fuse.FileIo.Stored.{FileWritten}

-- The times of an inode do not matter to the lookup of a block.
lookup-touched :
    (t k : ℕ) (inode : Inode) (s : Fs)
    → fblock_num_to_dblock_num (touched t inode) k s ≡ fblock_num_to_dblock_num inode k s
unfolding fblock_num_to_dblock_num
lookup-touched t k inode s = refl

pub IsMapped-FileWritten :
    {s s' : Fs} {n : ℕ} {blk : ℕ → ℕ} (inum offset nbytes t : ℕ) (buff : Block)
    → IsMapped (inode_at s inum) s n blk
    → FileWritten inum n blk offset nbytes (touched t (inode_at s inum)) buff s s'
    → IsMapped (inode_at s' inum) s' n blk
IsMapped-FileWritten {s} {s'} {n} {blk} inum offset nbytes t buff f w = record {
  data_block = f.data_block;
  once = f.once;
  lookup = λ v o k l.
      rw (w.inode) (
        lookup-touched t k (inode_at s inum) v
        ∙ f.lookup v (λ m d h. o m d h ∙ w.blocks m d h) k l);
}

-- The world that an outcome ends in, or the given one.
world_of : World → Outcome World ℕ → World
world_of w (done n v) = v
world_of w crash = w
world_of w no_fuel = w

module _ (fuel : ℕ) (path : Chars) (w w' : World) (inum : ℕ)
    (resolved : get_inode_num_from_path fuel path w ≡ done inum w')
    (geometry : IsGeometry w'.fs.super_block) (valid : IsInum inum)
    (fits : Fits (inode_at w'.fs inum)) (clock : w'.now w'.calls < 2 ^ 64) (nbytes offset : ℕ)
    (buff : Block) {n : ℕ} {blk : ℕ → ℕ} (f : IsMapped (inode_at w'.fs inum) w'.fs n blk)
    (inside : offset + nbytes ≤ (inode_at w'.fs inum).file_size)
    (some_bytes : (inode_at w'.fs inum).file_size ≢ 0)
    (big : (inode_at w'.fs inum).file_size < 2 ^ 63)
    (long : (inode_at w'.fs inum).file_size / block_size < n) (w1 w2 : World)
    (wrote : custom_write fuel path buff nbytes offset w ≡ done nbytes w1)
    (again : get_inode_num_from_path fuel path w1 ≡ done inum w2) where
  -- What was written.
  file :
      FileWritten inum n blk offset nbytes
        (touched (w'.now w'.calls) (inode_at w'.fs inum))
        buff
        w'.fs
        w2.fs
  unfolding world_of
  file =
      let (s', run, written) =
        custom_write_lem fuel path w w' inum resolved geometry valid fits clock nbytes offset buff f
          inside big long in
      let same : w1.fs ≡ s' = ap (λ o. (world_of w o).fs) (sym wrote ∙ run) in
      let kept : w2.fs ≡ s' = resolution_reads fuel path w1 w2 inum again ∙ same in rw kept written

  same_size : (inode_at w2.fs inum).file_size ≡ (inode_at w'.fs inum).file_size
  same_size = ap (λ (i : Inode). i.file_size) (file.inode)

  all : until_end (inode_at w2.fs inum).file_size nbytes offset ≡ nbytes
  all = rw same_size (ground (arith, inside))

  byte : (k : ℕ) → k < nbytes → content w2.fs blk (offset + k) ≡ buff k
  byte k l =
      let back : offset + k - offset ≡ k = omega arith in
      let below : (offset + k) / block_size < n = omega (arith, l, inside, long) in
      file.bytes (offset + k) below ∙ ground (arith, l, ap buff back)

  -- A write lies within a file that is not empty and whose blocks are mapped. Where the path then
  -- leads to the same inode again, the read that follows returns the number of bytes written, and
  -- the bytes.
  pub custom_read-custom_write :
      (other : Block)
      → (filled : Block) × (custom_read fuel path other nbytes offset w1
          ≡ done (nbytes, filled) (after_read w2 inum))
        × ((k : ℕ) → k < nbytes → filled k ≡ buff k)
  custom_read-custom_write other =
      let (filled, run, bytes) =
        custom_read_lem fuel path w1 w2 inum again (rw (file.super) geometry) valid nbytes offset
          (omega (arith, inside, big)) other
          (IsMapped-FileWritten inum offset nbytes (w'.now w'.calls) buff f file)
          (rw same_size (omega (arith, inside))) (rw same_size some_bytes) (rw same_size big)
          (rw same_size long) in
      (
        filled,
        run ∙ ap (λ k. done (k, filled) (after_read w2 inum)) all,
        λ k l. bytes k ∙ ground (arith, all, l, byte k l),
      )
