-- ===== src/FileMap/Lookup.antt =====
-- `fblock_num_to_dblock_num` in the ranges of the direct blocks and the single indirect block.
use file_system_fuse.Base.{ℕ, ◌-◌, ◌<◌, ◌≤◌, ◌^◌, ◌≡◌, true, some, arith, get_elem?}
use file_system_fuse.Base.Ssize.{slt-ltb}
use file_system_fuse.Bytes.{word, set_word, zero_block}
use file_system_fuse.Fs.{Fs, ok, write}
use file_system_fuse.Disk.Laws.{read_block-in, write_block-in}
use file_system_fuse.FreeList.{read_dblock, write_dblock}
use file_system_fuse.FreeList.Chain.{IsDataBlock}
use file_system_fuse.FreeList.Free.{valid_dblock}
use file_system_fuse.Inode.{Inode, direct_b_count}
use file_system_fuse.FileMap.{
  single_end, read_addresses, read_address, write_address, fblock_num_to_dblock_num,
}

pub read_addresses-in : (n : ℕ) (s : Fs) → IsDataBlock n → read_addresses n s ≡ ok (s.disk n) s
unfolding read_addresses read_dblock
read_addresses-in n s h = rw (valid_dblock n h, read_block-in n zero_block s h.1)

-- The state with one address set.
abbrev pub with_address : (n i v : ℕ) → Fs → Fs
with_address n i v s = record s { disk = write s.disk n (set_word (s.disk n) i v) }

pub write_address-in :
    (n i v : ℕ) (s : Fs) → IsDataBlock n → write_address n i v s ≡ ok true (with_address n i v s)
unfolding write_address write_dblock
write_address-in n i v s h =
    rw (read_addresses-in n s h, valid_dblock n h, write_block-in n (set_word (s.disk n) i v) s h.1)

-- The number of blocks is that of a file.
module _ (inode : Inode) (k : ℕ) (s : Fs) (inside : k ≤ inode.num_blocks)
    (big : inode.num_blocks < 2 ^ 63) where
  pub lookup_direct :
      (v : ℕ)
      → k < direct_b_count
      → get_elem? inode.direct_blocks k ≡ some v
      → fblock_num_to_dblock_num inode k s ≡ ok v s
  unfolding fblock_num_to_dblock_num
  lookup_direct v h e = ground (arith, slt-ltb inode.num_blocks k, slt-ltb k direct_b_count, e)

  pub lookup_single :
      direct_b_count ≤ k
      → k < single_end
      → IsDataBlock inode.single_indirect
      → fblock_num_to_dblock_num inode k s
        ≡ ok (word (s.disk inode.single_indirect) (k - direct_b_count)) s
  unfolding fblock_num_to_dblock_num read_address
  lookup_single h l d = ground (
    arith,
    slt-ltb inode.num_blocks k,
    slt-ltb k direct_b_count,
    slt-ltb k single_end,
    read_addresses-in inode.single_indirect s d,
  )
