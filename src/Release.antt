-- ===== src/Release.antt =====
-- Giving back the blocks of a file: `free_dblocks_from_inode` and `free_inode` of
-- lib/block_layer.c, and `remove_dblocks_from_inode` of lib/file_layer.c with the functions that it
-- calls. A block of addresses is read into a buffer first; what the C code clears in such a buffer
-- is neither read again nor written back, so the buffers here stay as they were read.
use file_system_fuse.Base.{
  ℕ, zero, suc, ◌+◌, Bool, true, false, not, ◌&&◌, ◌||◌, Option, none, some, List, [], ◌∷◌, ◌==◌,
  if◌then◌else◌, get_elem?,
}
use file_system_fuse.Base.Ssize.{slt, sle}
use file_system_fuse.Bytes.{Block, word}
use file_system_fuse.Fs.{M, pure, deref, ◌>>=◌, ◌>>◌, get_super}
use file_system_fuse.Disk.{scratch, read_block, write_block}
use file_system_fuse.FreeList.{dblocks_per_block, free_dblock}
use file_system_fuse.Inode.{
  Inode, direct_b_count, is_valid_inum, load_inode, store_inode, inode_num_to_block_id,
  inode_num_to_offset,
}
use file_system_fuse.FileMap.{read_addresses, address_at, set_direct}

-- One loop of `free_dblocks_from_inode` over the addresses from index `i` with `n` rounds left. The
-- result is `none` where the function returns false, and else the flag `done`, which an address 0
-- sets, in this loop or in one that `free_one` runs.
unfoldable pub free_loop : (n i : ℕ) → Block → (ℕ → M (Option Bool)) → Bool → M (Option Bool)
free_loop zero i buff free_one done = pure (some done)
free_loop (suc n) i buff free_one done = if word buff i == 0 then pure (some true) else do
  freed ← free_one (word buff i)
  elim freed [ none ↦ pure none | some d ↦ free_loop n (i + 1) buff free_one (done || d) ]

-- The loop over `direct_blocks`.
unfoldable pub free_directs : List ℕ → M (Option Bool)
free_directs [] = pure (some false)
free_directs (d ∷ ds) =
    if d == 0
    then pure (some true)
    else do freed ← free_dblock d; if freed then free_directs ds else pure none

-- A block is freed, with the flag `done` of what was freed before it.
unfoldable pub free_after : ℕ → Option Bool → M (Option Bool)
free_after dblock_num none = pure none
free_after dblock_num (some done) = do
  freed ← free_dblock dblock_num
  pure (if freed then some done else none)

-- The blocks that the block lists.
unfoldable pub free_listed : (ℕ → M (Option Bool)) → ℕ → M (Option Bool)
free_listed free_one dblock_num = do
  found ← read_block dblock_num scratch
  elim found [ none ↦ pure none | some buff ↦ free_loop dblocks_per_block 0 buff free_one false ]

-- A data block; a single indirect block; and a double indirect block.
unfoldable pub free_data : ℕ → M (Option Bool)
free_data dblock_num = free_after dblock_num (some false)

unfoldable pub free_single : ℕ → M (Option Bool)
free_single dblock_num = do listed ← free_listed free_data dblock_num; free_after dblock_num listed

unfoldable pub free_double : ℕ → M (Option Bool)
free_double dblock_num = do
  listed ← free_listed free_single dblock_num
  free_after dblock_num listed

-- A triple indirect block. Here the double indirect blocks are not freed themselves.
unfoldable pub free_triple : ℕ → M (Option Bool)
free_triple dblock_num = do
  listed ← free_listed (free_listed free_single) dblock_num
  free_after dblock_num listed

-- Goes on to the next range, unless the function returns at this point.
unfoldable pub free_next : Option Bool → ℕ → (ℕ → M (Option Bool)) → M (Option Bool)
free_next none dblock_num free = pure none
free_next (some done) dblock_num free =
    if done || (dblock_num == 0) then pure (some true) else free dblock_num

abbrev pub is_some : Option Bool → Bool
is_some none = false
is_some (some done) = true

unfoldable pub free_dblocks_from_inode : Inode → M Bool
free_dblocks_from_inode inode = do
  directs ← free_directs inode.direct_blocks
  singles ← free_next directs inode.single_indirect free_single
  doubles ← free_next singles inode.double_indirect free_double
  triples ← free_next doubles inode.triple_indirect free_triple
  pure (is_some triples)

unfoldable pub free_inode : ℕ → M Bool
free_inode inode_num = do
  sb ← get_super
  if not (is_valid_inum sb inode_num) then pure false else do
    found ← read_block (inode_num_to_block_id sb inode_num) scratch
    elim found [
      | none ↦ pure false
      | some buff ↦ do
        let inode = load_inode buff (inode_num_to_offset sb inode_num)
        freed ← free_dblocks_from_inode inode
        if not freed
            then pure false
            else write_block (inode_num_to_block_id sb inode_num) (
                some (
                  store_inode buff (inode_num_to_offset sb inode_num)
                    (record inode { allocated = false })))
    ]

-- The loop of `remove_single_indirect` and its like: results of `free_one` are not looked at.
unfoldable pub remove_loop : (n i : ℕ) → Block → (ℕ → M Bool) → M (Unit {0})
remove_loop zero i buff free_one = pure tt
remove_loop (suc n) i buff free_one =
    if word buff i == 0
    then pure tt
    else do free_one (word buff i); remove_loop n (i + 1) buff free_one

-- The blocks that a block lists, and the block.
unfoldable pub remove_listed : (ℕ → M Bool) → ℕ → M Bool
remove_listed free_one dblock_num = if sle dblock_num 0 then pure true else do
  buff ← read_addresses dblock_num
  remove_loop dblocks_per_block 0 buff free_one
  free_dblock dblock_num
  pure true

unfoldable pub remove_single_indirect : ℕ → M Bool
remove_single_indirect = remove_listed free_dblock

unfoldable pub remove_double_indirect : ℕ → M Bool
remove_double_indirect = remove_listed remove_single_indirect

unfoldable pub remove_triple_indirect : ℕ → M Bool
remove_triple_indirect = remove_listed remove_double_indirect

-- The loops of `remove_dblocks_from_inode` over `n` addresses from index `i`.
unfoldable pub remove_range : (n i : ℕ) → Block → (ℕ → M Bool) → M (Unit {0})
remove_range zero i buff free_one = pure tt
remove_range (suc n) i buff free_one = do
  d ← address_at buff i
  free_one d
  remove_range n (i + 1) buff free_one

-- The loop over the direct blocks from index `i`, of which there are at most `n` left.
unfoldable pub remove_directs : (n i curr_blocks : ℕ) → Inode → M Inode
remove_directs zero i curr_blocks inode = pure inode
remove_directs (suc n) i curr_blocks inode =
    if not (slt i curr_blocks && slt i direct_b_count) then pure inode else do
      d ← deref (get_elem? inode.direct_blocks i)
      free_dblock d
      changed ← set_direct inode i 0
      remove_directs n (i + 1) curr_blocks changed
