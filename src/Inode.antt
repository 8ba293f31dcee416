-- ===== src/Inode.antt =====
-- The inodes of lib/block_layer.c: `struct iNode`, its bytes in an inode block, and the functions
-- that find, read and write one. The bytes of padding are written as zeros and never read.
pub mod Layout
pub mod Store
pub mod Scan
pub mod Visit
pub mod Create
pub mod Exhaust
mod Tests
use file_system_fuse.Base.{
  ◌-◌, ℕ, zero, suc, ◌+◌, ◌*◌, ◌/◌, ◌%◌, ◌^◌, Bool, true, false, not, ◌&&◌, Option, none, some,
  List, [], ◌∷◌, ◌++◌, ◌==◌, if◌then◌else◌, ltb, get_or, take, drop,
}
use file_system_fuse.Base.Ssize.{slt, minus_one, add_ssize}
use file_system_fuse.Bytes.{Block, load_words, store_words}
use file_system_fuse.Fs.{SuperBlock, Fs, M, out_of_fuel, pure, ◌>>=◌, ◌>>◌, get_super, set_super}
use file_system_fuse.Disk.{block_size, scratch, read_block, write_block}
use file_system_fuse.FreeList.{inode_b_count}

-- `struct iNode`; `direct_blocks` has `DIRECT_B_COUNT` members.
pub record Inode : Type 0 where
  pub direct_blocks : List ℕ
  pub single_indirect : ℕ
  pub double_indirect : ℕ
  pub triple_indirect : ℕ
  pub link_count : ℕ
  pub file_size : ℕ
  pub num_blocks : ℕ
  pub allocated : Bool
  pub user_id : ℕ
  pub group_id : ℕ
  pub mode : ℕ
  pub access_time : ℕ
  pub creation_time : ℕ
  pub modification_time : ℕ
  pub status_change_time : ℕ

-- `DIRECT_B_COUNT`
abbrev pub direct_b_count : ℕ
direct_b_count = 10

-- `sizeof(struct iNode)`: 24 slots of 8 bytes. `allocated` is one byte and `mode` four.
abbrev pub inode_words : ℕ
inode_words = 24

abbrev pub inode_size : ℕ
inode_size = 8 * inode_words

-- The members after the array.
abbrev pub tail_words : Inode → List ℕ
tail_words i =
    i.single_indirect
    ∷ i.double_indirect
    ∷ i.triple_indirect
    ∷ i.link_count
    ∷ i.file_size
    ∷ i.num_blocks
    ∷ (if i.allocated then 1 else 0)
    ∷ i.user_id
    ∷ i.group_id
    ∷ i.mode
    ∷ i.access_time
    ∷ i.creation_time
    ∷ i.modification_time
    ∷ i.status_change_time
    ∷ []

unfoldable pub to_words : Inode → List ℕ
to_words i = i.direct_blocks ++ tail_words i

-- An inode of its array and its other members.
from_tail : List ℕ → List ℕ → Inode
from_tail direct ws = record {
  direct_blocks = direct;
  single_indirect = get_or ws 0 0;
  double_indirect = get_or ws 1 0;
  triple_indirect = get_or ws 2 0;
  link_count = get_or ws 3 0;
  file_size = get_or ws 4 0;
  num_blocks = get_or ws 5 0;
  allocated = not (get_or ws 6 0 % 256 == 0);
  user_id = get_or ws 7 0;
  group_id = get_or ws 8 0;
  mode = get_or ws 9 0 % 2 ^ 32;
  access_time = get_or ws 10 0;
  creation_time = get_or ws 11 0;
  modification_time = get_or ws 12 0;
  status_change_time = get_or ws 13 0;
}

unfoldable pub from_words : List ℕ → Inode
unfolding from_tail
from_words ws = from_tail (take direct_b_count ws) (drop direct_b_count ws)

-- `((struct iNode*) buff)[offset]`
unfoldable pub load_inode : Block → ℕ → Inode
load_inode buff offset = from_words (load_words inode_words buff (inode_size * offset))

unfoldable pub store_inode : Block → ℕ → Inode → Block
store_inode buff offset inode = store_words buff (inode_size * offset) (to_words inode)

unfoldable pub is_valid_inum : SuperBlock → ℕ → Bool
is_valid_inum sb inode_num = slt 0 inode_num && slt inode_num sb.inode_count

-- On an inode number that is valid, so not negative.
abbrev pub inode_num_to_block_id : SuperBlock → ℕ → ℕ
inode_num_to_block_id sb inode_num = 1 + inode_num / sb.inodes_per_block

abbrev pub inode_num_to_offset : SuperBlock → ℕ → ℕ
inode_num_to_offset sb inode_num = inode_num % sb.inodes_per_block

-- `none` is the null pointer.
unfoldable pub read_inode : ℕ → M (Option Inode)
read_inode inode_num = do
  sb ← get_super
  if not (is_valid_inum sb inode_num) then pure none else do
    found ← read_block (inode_num_to_block_id sb inode_num) scratch
    elim found [
      | none ↦ pure none
      | some buff ↦ pure (some (load_inode buff (inode_num_to_offset sb inode_num)))
    ]

unfoldable pub write_inode : ℕ → Inode → M Bool
write_inode inode_num inode = do
  sb ← get_super
  if not (is_valid_inum sb inode_num) then pure false else do
    found ← read_block (inode_num_to_block_id sb inode_num) scratch
    elim found [
      | none ↦ pure false
      | some buff ↦
          write_block (inode_num_to_block_id sb inode_num)
            (some (store_inode buff (inode_num_to_offset sb inode_num) inode))
    ]

-- The `for` loop of `create_new_inode` over one block, with `n` rounds left: whether an inode that
-- is not allocated was met, and `visit_count`, a `ssize_t` that wraps.
pub scan_block : (n offset visit_count : ℕ) → Block → Bool × ℕ
scan_block zero offset visit_count buff = (false, visit_count)
scan_block (suc n) offset visit_count buff =
    let rest = scan_block n (offset + 1) (add_ssize visit_count 1) buff in
    if (load_inode buff offset).allocated then rest else (true, add_ssize visit_count 1)

-- The `while` loop, on fuel. What is set to allocated is the copy of the inode in `buff`.
pub scan_inodes : (fuel block_id offset visit_count : ℕ) → M ℕ
scan_inodes zero block_id offset visit_count = λ _. out_of_fuel
scan_inodes (suc fuel) block_id offset visit_count = do
  sb ← get_super
  if visit_count == sb.inode_count then pure minus_one else do
    found ← read_block block_id scratch
    elim found [
      | none ↦ pure 0
      | some buff ↦
          let (free, visit_count') =
            scan_block (sb.inodes_per_block - offset) offset visit_count buff in
          if free
          then (do
            set_super (record sb { latest_inum = add_ssize sb.latest_inum visit_count' })
            pure sb.latest_inum)
          else scan_inodes fuel (block_id % inode_b_count + 1) 0 visit_count'
    ]

unfoldable pub create_new_inode : ℕ → M ℕ
create_new_inode fuel = do
  sb ← get_super
  if not (is_valid_inum sb sb.latest_inum)
      then pure minus_one
      else scan_inodes fuel (inode_num_to_block_id sb sb.latest_inum)
          (inode_num_to_offset sb sb.latest_inum) 0
