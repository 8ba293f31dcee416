-- ===== src/Inode/Store.antt =====
-- `read_inode` and `write_inode` as an array of inodes on the disk.
use file_system_fuse.Base.{
  sym, ap, ℕ, ◌+◌, ◌*◌, ◌/◌, ◌^◌, ◌<◌, ◌≤◌, ◌≡◌, ◌≢◌, ◌∙◌, ◌⊎◌, refl, true, false, some, none, inl,
  inr, arith, ◌==◌, Bool-cases, ==→eq, ==→ne,
}
use file_system_fuse.Base.Ssize.{slt}
use file_system_fuse.Bytes.{zero_block}
use file_system_fuse.Fs.{SuperBlock, Fs, ok, write}
use file_system_fuse.Disk.{block_size, block_count}
use file_system_fuse.Disk.Laws.{read_block-in, write_block-in, write_self, write_ne}
use file_system_fuse.FreeList.{inode_b_count}
use file_system_fuse.Inode.{
  Inode, inode_size, load_inode, store_inode, is_valid_inum, read_inode, write_inode,
  inode_num_to_block_id, inode_num_to_offset,
}
use file_system_fuse.Inode.Layout.{Fits, load-store_inode, load-store_inode_ne}

-- The constant members, as `init_superblock` sets them.
pub record IsGeometry (sb : SuperBlock) : Type 0 where
  pub per_block : sb.inodes_per_block ≡ block_size / inode_size
  pub count : sb.inode_count ≡ inode_b_count * (block_size / inode_size)

-- The number of an inode that the disk has.
abbrev pub IsInum : ℕ → Type 0
IsInum n = (0 < n) × (n < inode_b_count * (block_size / inode_size))

-- The inode with the number `n`.
unfoldable pub inode_at : Fs → ℕ → Inode
inode_at s n =
    load_inode (s.disk (inode_num_to_block_id s.super_block n))
      (inode_num_to_offset s.super_block n)

pub valid_inum : (sb : SuperBlock) (n : ℕ) → IsGeometry sb → IsInum n → is_valid_inum sb n ≡ true
unfolding is_valid_inum slt
valid_inum sb n g v = ground arith

-- The block of an inode is an inode block, and the inode ends within it.
pub inode_in_block :
    (sb : SuperBlock) (n : ℕ)
    → IsGeometry sb
    → IsInum n
    → (1 ≤ inode_num_to_block_id sb n)
      × (inode_num_to_block_id sb n ≤ inode_b_count)
      × (inode_size * inode_num_to_offset sb n + inode_size ≤ block_size)
inode_in_block sb n g v = rw (g.per_block) (omega arith)

block_in_range :
    (sb : SuperBlock) (n : ℕ) → IsGeometry sb → IsInum n → inode_num_to_block_id sb n < block_count
block_in_range sb n g v = omega (arith, inode_in_block sb n g v)

-- Two inodes of one block do not overlap.
offset_ne :
    (sb : SuperBlock) (n m : ℕ)
    → IsGeometry sb
    → m ≢ n
    → inode_num_to_block_id sb n ≡ inode_num_to_block_id sb m
    → inode_num_to_offset sb n ≢ inode_num_to_offset sb m
offset_ne sb n m g h = rw (g.per_block) (omega arith)

pub read_inode-at :
    (s : Fs) (n : ℕ)
    → IsGeometry s.super_block
    → IsInum n
    → read_inode n s ≡ ok (some (inode_at s n)) s
unfolding read_inode inode_at
read_inode-at s n g v = ground (
  arith,
  valid_inum s.super_block n g v,
  read_block-in (inode_num_to_block_id s.super_block n) zero_block s
      (omega (arith, inode_in_block s.super_block n g v)),
)

-- The disk with the inode `i` in the place of `n`.
unfoldable pub with_inode : Fs → ℕ → Inode → Fs
with_inode s n i = record s {
  disk = write s.disk (inode_num_to_block_id s.super_block n) (
      store_inode (s.disk (inode_num_to_block_id s.super_block n))
        (inode_num_to_offset s.super_block n) i);
}

pub write_inode-at :
    (s : Fs) (n : ℕ) (i : Inode)
    → IsGeometry s.super_block
    → IsInum n
    → write_inode n i s ≡ ok true (with_inode s n i)
unfolding write_inode with_inode
write_inode-at s n i g v =
    let in_range = block_in_range s.super_block n g v in
    ground (
      arith,
      valid_inum s.super_block n g v,
      read_block-in (inode_num_to_block_id s.super_block n) zero_block s in_range,
      write_block-in (inode_num_to_block_id s.super_block n)
          (store_inode (s.disk (inode_num_to_block_id s.super_block n))
            (inode_num_to_offset s.super_block n) i)
          s in_range,
    )

-- A write to one slot is not seen in another.
slot_ne :
    (s : Fs) (k o k' o' : ℕ) (i : Inode)
    → Fits i
    → (k ≡ k' → o ≢ o')
    → load_inode (write s.disk k (store_inode (s.disk k) o i) k') o' ≡ load_inode (s.disk k') o'
slot_ne s k o k' o' i f h = elim (Bool-cases (k' == k)) [
  | inl same ↦
      let e = ==→eq k' k same in
      rw (e, write_self s.disk k (store_inode (s.disk k) o i))
        (load-store_inode_ne (s.disk k) o o' i f (h (sym e)))
  | inr other ↦ rw (write_ne s.disk k k' (store_inode (s.disk k) o i) (==→ne k' k other))
]

module _ (s : Fs) (n : ℕ) (i : Inode) (g : IsGeometry s.super_block) (v : IsInum n)
    (f : Fits i) where
  pub inode_at_self : inode_at (with_inode s n i) n ≡ i
  unfolding inode_at with_inode
  inode_at_self =
      rw
        (write_self s.disk (inode_num_to_block_id s.super_block n) (
          store_inode (s.disk (inode_num_to_block_id s.super_block n))
            (inode_num_to_offset s.super_block n) i))
        (load-store_inode (s.disk (inode_num_to_block_id s.super_block n))
          (inode_num_to_offset s.super_block n) i f)

  pub inode_at_ne : (m : ℕ) → m ≢ n → inode_at (with_inode s n i) m ≡ inode_at s m
  unfolding inode_at with_inode
  inode_at_ne m h =
      slot_ne s (inode_num_to_block_id s.super_block n) (inode_num_to_offset s.super_block n)
        (inode_num_to_block_id s.super_block m) (inode_num_to_offset s.super_block m) i f
        (offset_ne s.super_block n m g h)

  pub super_with_inode : (with_inode s n i).super_block ≡ s.super_block
  unfolding with_inode
  super_with_inode = refl

  -- Only a block of inodes is written.
  disk_outside : (k : ℕ) → (k ≡ 0) ⊎ (inode_b_count < k) → (with_inode s n i).disk k ≡ s.disk k
  unfolding with_inode
  disk_outside k h =
      write_ne s.disk (inode_num_to_block_id s.super_block n) k
        (store_inode (s.disk (inode_num_to_block_id s.super_block n))
          (inode_num_to_offset s.super_block n) i)
        (omega (arith, h, inode_in_block s.super_block n g v))

  pub disk_with_inode : (k : ℕ) → inode_b_count < k → (with_inode s n i).disk k ≡ s.disk k
  disk_with_inode k h = disk_outside k (inr h)

  -- With the constants of the super block as `init_superblock` sets them, `write_inode` of a valid
  -- number and of an inode whose members fit their widths succeeds; `read_inode` of that number then
  -- gives the inode, of any other valid number what it gave before; and no block outside the inode
  -- list, block 0 included, nor the super block in memory, changes.
  pub read-write_inode :
      (s' : Fs) × (write_inode n i s ≡ ok true s')
      × (read_inode n s' ≡ ok (some i) s')
      × ((m : ℕ)
          → IsInum m
          → m ≢ n
          → (j : Inode) × (read_inode m s ≡ ok (some j) s) × (read_inode m s' ≡ ok (some j) s'))
      × ((k : ℕ) → (k ≡ 0) ⊎ (inode_b_count < k) → s'.disk k ≡ s.disk k)
      × (s'.super_block ≡ s.super_block)
  read-write_inode = (
    with_inode s n i,
    write_inode-at s n i g v,
    read_inode-at (with_inode s n i) n (rw super_with_inode g) v
        ∙ ap (λ j. ok (some j) (with_inode s n i)) inode_at_self,
    (λ m w h. (
      inode_at s m,
      read_inode-at s m g w,
      read_inode-at (with_inode s n i) m (rw super_with_inode g) w
          ∙ ap (λ j. ok (some j) (with_inode s n i)) (inode_at_ne m h),
    )),
    disk_outside,
    super_with_inode,
  )

pub invalid_inum_test :
    (sb : SuperBlock) (n : ℕ)
    → IsGeometry sb
    → n < 2 ^ 64
    → ¬ (IsInum n)
    → is_valid_inum sb n ≡ false
unfolding is_valid_inum slt
invalid_inum_test sb n g h bad = ground arith

-- `read_inode` and `write_inode` refuse a number that is not valid, and change nothing.
pub invalid_inum :
    (s : Fs) (n : ℕ) (i : Inode)
    → IsGeometry s.super_block
    → n < 2 ^ 64
    → ¬ (IsInum n)
    → (read_inode n s ≡ ok none s) × (write_inode n i s ≡ ok false s)
unfolding read_inode write_inode
invalid_inum s n i g h bad =
    (rw (invalid_inum_test s.super_block n g h bad), rw (invalid_inum_test s.super_block n g h bad))
