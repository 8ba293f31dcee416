-- ===== src/FileIo/Stored.antt =====
-- The bytes of a file and its inode are written.
use file_system_fuse.Base.{
  ℕ, ◌+◌, ◌-◌, ◌/◌, ◌%◌, ◌<◌, ◌≡◌, ◌≢◌, ◌∙◌, ap, if◌then◌else◌, ltb, leb, ◌&&◌, arith,
}
use file_system_fuse.Bytes.{Block}
use file_system_fuse.Fs.{Fs}
use file_system_fuse.Disk.{block_size}
use file_system_fuse.FreeList.{inode_b_count}
use file_system_fuse.Inode.{inode_num_to_block_id, inode_num_to_offset, Inode, load_inode}
use file_system_fuse.Inode.Layout.{Fits}
use file_system_fuse.Inode.Store.{
  IsGeometry, IsInum, inode_at, inode_in_block, with_inode, inode_at_self, inode_at_ne,
  disk_with_inode, super_with_inode,
}
use file_system_fuse.Transfer.Content.{IsMapped, content}
use file_system_fuse.Transfer.Write.{Written}

-- What an operation does that puts `nbytes` bytes into the file `inum` at `offset`: the bytes are in
-- it, the inode is `new`, and all other inodes and data blocks are as before.
pub record FileWritten (inum n : ℕ) (blk : ℕ → ℕ) (offset nbytes : ℕ) (new : Inode) (buff : Block)
    (s s' : Fs) : Type 0 where
  pub bytes :
      (k : ℕ)
      → k / block_size < n
      → content s' blk k
        ≡ (if leb offset k && ltb k (offset + nbytes) then buff (k - offset) else content s blk k)
  pub inode : inode_at s' inum ≡ new
  pub inodes : (m : ℕ) → IsInum m → m ≢ inum → inode_at s' m ≡ inode_at s m
  pub blocks : (m : ℕ) → inode_b_count < m → ((j : ℕ) → j < n → m ≢ blk j) → s'.disk m ≡ s.disk m
  pub super : s'.super_block ≡ s.super_block

module _ (s s' : Fs) (n : ℕ) (blk : ℕ → ℕ) (g : IsGeometry s.super_block) where
  -- A write to data blocks changes no inode.
  inode_at-Written :
      {inode : Inode} (offset nbytes m : ℕ) (buff : Block)
      → IsMapped inode s n blk
      → Written n blk offset nbytes buff s s'
      → IsInum m
      → inode_at s' m ≡ inode_at s m
  unfolding inode_at
  inode_at-Written offset nbytes m buff f w v =
      let (first, last, room) = inode_in_block s.super_block m g v in
      let apart : (j : ℕ) → j < n → inode_num_to_block_id s.super_block m ≢ blk j =
        λ j l. omega (arith, last, f.data_block j l) in
      rw (w.super)
        (ap (λ b. load_inode b (inode_num_to_offset s.super_block m)) (w.outside _ apart))

  -- The bytes are written, and then the inode.
  pub with_inode-FileWritten :
      {inode : Inode} (inum offset nbytes : ℕ) (new : Inode) (buff : Block)
      → IsInum inum
      → Fits new
      → IsMapped inode s n blk
      → Written n blk offset nbytes buff s s'
      → FileWritten inum n blk offset nbytes new buff s (with_inode s' inum new)
  with_inode-FileWritten inum offset nbytes new buff valid fits f w =
      let g1 : IsGeometry s'.super_block = rw (w.super) g in
      record {
        bytes = λ k l.
            ap (λ (b : Block). b (k % block_size))
              (disk_with_inode s' inum new g1 valid fits (blk (k / block_size))
                (f.data_block (k / block_size) l).0)
            ∙ w.bytes k l;
        inode = inode_at_self s' inum new g1 valid fits;
        inodes = λ m v h.
            inode_at_ne s' inum new g1 valid fits m h ∙ inode_at-Written offset nbytes m buff f w v;
        blocks = λ m d h. disk_with_inode s' inum new g1 valid fits m d ∙ w.outside m h;
        super = super_with_inode s' inum new g1 valid fits ∙ w.super;
      }
