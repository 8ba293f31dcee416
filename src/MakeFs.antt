-- ===== src/MakeFs.antt =====
-- The part of lib/block_layer.c that makes a file system: `make_fs` and what it calls.
pub mod Nodes
pub mod Inodes
pub mod Made
mod Tests
use file_system_fuse.Base.{
  ℕ, zero, suc, ◌+◌, ◌-◌, ◌*◌, ◌/◌, Bool, true, false, not, some, none, List, [], ◌∷◌, ◌==◌, leb,
  if◌then◌else◌,
}
use file_system_fuse.Bytes.{Block, zero_block, set_word}
use file_system_fuse.Fs.{SuperBlock, Fs, M, pure, ◌>>=◌, ◌>>◌, get_super, set_super}
use file_system_fuse.Disk.{block_size, block_count, write_block, alloc_memory}
use file_system_fuse.FreeList.{inode_b_count, dblocks_per_block, free_list_blocks, write_superblock}
use file_system_fuse.Inode.{Inode, inode_size, store_inode}

-- `malloc` gives memory for the super block; all its members are then set.
unfoldable pub init_superblock : M Bool
init_superblock = do
  set_super (record {
    latest_inum = 3;
    inodes_per_block = block_size / inode_size;
    inode_count = inode_b_count * (block_size / inode_size);
    free_list_head = inode_b_count + 1;
  })
  write_superblock

-- The inode of `init_inode_list`. The members that are not set hold what the stack held, which is
-- the argument.
abbrev pub blank : Inode → Inode
blank junk = record junk {
  direct_blocks = 0 ∷ 0 ∷ 0 ∷ 0 ∷ 0 ∷ 0 ∷ 0 ∷ 0 ∷ 0 ∷ 0 ∷ [];
  single_indirect = 0;
  double_indirect = 0;
  triple_indirect = 0;
  link_count = 0;
  file_size = 0;
  num_blocks = 0;
  allocated = false;
}

-- The inner loop from inode `i` with `n` rounds left.
pub fill_inodes : (n i : ℕ) → Inode → Block → Block
fill_inodes zero i inode buff = buff
fill_inodes (suc n) i inode buff = fill_inodes n (i + 1) inode (store_inode buff i inode)

-- The outer loop from `block_id` with `n` rounds left.
pub init_inode_blocks : (n block_id : ℕ) → Inode → M Bool
init_inode_blocks zero block_id inode = pure true
init_inode_blocks (suc n) block_id inode = do
  sb ← get_super
  written ← write_block block_id (some (fill_inodes sb.inodes_per_block 0 inode zero_block))
  if written then init_inode_blocks n (block_id + 1) inode else pure false

unfoldable pub init_inode_list : Inode → M Bool
init_inode_list junk = init_inode_blocks inode_b_count 1 (blank junk)

-- An address of the free list, or 0 past the end of the disk.
abbrev pub address : ℕ → ℕ
address block_id = if leb block_count block_id then 0 else block_id

-- The inner loop from index `j` with `n` rounds left: the buffer. `block_id` grows by 1 a round.
pub fill_node : (n j block_id : ℕ) → Block → Block
fill_node zero j block_id buff = buff
fill_node (suc n) j block_id buff =
    fill_node n (j + 1) (block_id + 1) (set_word buff j (address (block_id + 1)))

-- One free list block, with the address of the next.
pub node_block : ℕ → Block
node_block block_id =
    set_word (fill_node (dblocks_per_block - 1) 1 block_id zero_block) 0
      (address (block_id + dblocks_per_block))

-- The outer loop with `n` rounds left.
pub init_nodes : (n block_id : ℕ) → M Bool
init_nodes zero block_id = pure true
init_nodes (suc n) block_id = do
  written ← write_block block_id (some (node_block block_id))
  if not written
      then pure false
      else if leb block_count (block_id + dblocks_per_block)
      then pure true
      else init_nodes n (block_id + dblocks_per_block)

unfoldable pub init_freelist : M Bool
init_freelist = do sb ← get_super; init_nodes free_list_blocks sb.free_list_head

-- The arguments: whether `malloc` gives the memory of the disk, and what the stack holds.
unfoldable pub make_fs : Bool → Inode → M Bool
make_fs given junk = do
  memory ← alloc_memory given
  if not memory then pure false else do
    super ← init_superblock
    if not super
        then pure false
        else do inodes ← init_inode_list junk; if not inodes then pure false else init_freelist
