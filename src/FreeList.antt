-- ===== src/FreeList.antt =====
-- The free list of lib/block_layer.c. A node of the list is a free block: its word 0 is the next
-- node, and each other word is a free block or 0.
pub mod Same
pub mod Entries
pub mod Chain
pub mod Create
pub mod Free
pub mod Blocks
pub mod Full
pub mod Ends
pub mod Samples
mod Tests
use file_system_fuse.Base.{
  ℕ, zero, suc, ◌+◌, ◌-◌, ◌/◌, List, [], ◌∷◌, Bool, true, false, not, ◌||◌, Option, none, some,
  ◌==◌, if◌then◌else◌,
}
use file_system_fuse.Base.Ssize.{sle, slt, minus_one}
use file_system_fuse.Bytes.{Block, zero_block, word, set_word, store_words}
use file_system_fuse.Fs.{SuperBlock, M, pure, ◌>>=◌, ◌>>◌, get_super, set_super}
use file_system_fuse.Disk.{block_size, block_count, scratch, read_block, write_block}

-- `ADDRESS_SIZE`
abbrev pub address_size : ℕ
address_size = 8

-- `INODE_B_COUNT`
abbrev pub inode_b_count : ℕ
inode_b_count = block_count / 10

-- `DATA_B_COUNT`
abbrev pub data_b_count : ℕ
data_b_count = block_count - inode_b_count - 1

-- `DBLOCKS_PER_BLOCK`
abbrev pub dblocks_per_block : ℕ
dblocks_per_block = block_size / address_size

-- `FREE_LIST_BLOCKS`
abbrev pub free_list_blocks : ℕ
free_list_blocks = data_b_count / dblocks_per_block + 1

-- The bytes of a `struct superBlock`.
pub super_words : SuperBlock → List ℕ
super_words sb = sb.inode_count ∷ sb.latest_inum ∷ sb.inodes_per_block ∷ sb.free_list_head ∷ []

unfoldable pub write_superblock : M Bool
unfolding super_words
write_superblock = do
  sb ← get_super
  write_block 0 (some (store_words zero_block 0 (super_words sb)))

-- `super_block->free_list_head = n`, and the super block is written.
pub set_free_list_head : ℕ → M Bool
unfolding write_superblock
set_free_list_head n = do
  sb ← get_super
  set_super (record sb { free_list_head = n })
  write_superblock

-- The loop of `create_new_dblock` from index `i` with `n` rounds left: the first entry that is
-- not 0, which is cleared, and the buffer.
pub take_entry : (n i : ℕ) → Block → ℕ × Block
take_entry zero i buff = (0, buff)
take_entry (suc n) i buff =
    let rest = take_entry n (i + 1) buff in
    if word buff i == 0 then rest else (word buff i, set_word buff i 0)

-- The end of `create_new_dblock`: the node is written back.
finish_create : (temp ans : ℕ) → Block → M ℕ
finish_create temp ans buff = do
  written ← write_block temp (some buff)
  if written then pure ans else pure minus_one

unfoldable pub create_new_dblock : M ℕ
unfolding finish_create
create_new_dblock = do
  sb ← get_super
  if sb.free_list_head == 0 then pure minus_one else do
    found ← read_block sb.free_list_head scratch
    elim found [
      | none ↦ pure minus_one
      | some b ↦
          let (ans, buff) = take_entry (dblocks_per_block - 1) 1 b in
          if ans == 0
          then (do
            written ← set_free_list_head (word buff 0)
            if written
                then finish_create sb.free_list_head sb.free_list_head (set_word buff 0 0)
                else pure minus_one)
          else finish_create sb.free_list_head ans buff
    ]

-- `dblock_num <= INODE_B_COUNT || dblock_num > BLOCK_COUNT`
unfoldable pub is_invalid_dblock : ℕ → Bool
is_invalid_dblock dblock_num = sle dblock_num inode_b_count || slt block_count dblock_num

-- `none` is the null pointer.
unfoldable pub read_dblock : ℕ → M (Option Block)
read_dblock dblock_num =
    if is_invalid_dblock dblock_num then pure none else read_block dblock_num scratch

unfoldable pub write_dblock : ℕ → Block → M Bool
write_dblock dblock_num buff =
    if is_invalid_dblock dblock_num then pure false else write_block dblock_num (some buff)

-- The loop of `free_dblock`: whether an entry was 0, and the buffer with the first such entry set.
pub put_entry : (n i dblock_num : ℕ) → Block → Bool × Block
put_entry zero i dblock_num buff = (false, buff)
put_entry (suc n) i dblock_num buff =
    let rest = put_entry n (i + 1) dblock_num buff in
    if word buff i == 0 then (true, set_word buff i dblock_num) else rest

-- The second half of `free_dblock`: the block goes on the list.
pub insert_free : ℕ → M Bool
insert_free dblock_num = do
  sb ← get_super
  found ← read_block sb.free_list_head scratch
  elim found [
    | none ↦ pure false
    | some b ↦
        let (placed, buff) = put_entry (dblocks_per_block - 1) 1 dblock_num b in
        if placed then write_block sb.free_list_head (some buff) else do
          written ← set_free_list_head dblock_num
          if written
              then write_block dblock_num (some (set_word zero_block 0 sb.free_list_head))
              else pure false
  ]

unfoldable pub free_dblock : ℕ → M Bool
free_dblock dblock_num = if is_invalid_dblock dblock_num then pure false else do
  write_block dblock_num (some zero_block)
  sb ← get_super
  if not (sb.free_list_head == 0) then insert_free dblock_num else do
    written ← set_free_list_head dblock_num
    if written then insert_free dblock_num else pure false
