-- ===== src/MakeFs/Made.antt =====
-- `make_fs` makes a file system in which all inodes and all data blocks are free.
use file_system_fuse.Base.{ℕ, ◌+◌, ◌*◌, ◌/◌, ◌%◌, ◌<◌, ◌≡◌, ◌≢◌, ◌∙◌, refl, List, true, arith, ap}
use file_system_fuse.Bytes.{zero_block, store_words}
use file_system_fuse.Bytes.Words.{word-zero}
use file_system_fuse.Fs.{SuperBlock, Fs, Disk, write, ok}
use file_system_fuse.Disk.{block_count, block_size, alloc_memory}
use file_system_fuse.Disk.Laws.{write_ne, write_block-in}
use file_system_fuse.FreeList.{inode_b_count, free_list_blocks, super_words, write_superblock}
use file_system_fuse.FreeList.Chain.{free_count, node_count, FreeList}
use file_system_fuse.Inode.{Inode, inode_size}
use file_system_fuse.Inode.Layout.{Fits}
use file_system_fuse.Inode.Store.{IsGeometry, IsInum, inode_at, inode_in_block}
use file_system_fuse.MakeFs.{
  init_inode_blocks, init_nodes, blank, init_superblock, init_inode_list, init_freelist, make_fs,
}
use file_system_fuse.MakeFs.Nodes.{within, Chained, init_nodes-Chained}
use file_system_fuse.MakeFs.Inodes.{Filled, init_inode_blocks-Filled, load-fill_inodes}

abbrev fresh_super : SuperBlock
fresh_super = record {
  latest_inum = 3;
  inodes_per_block = block_size / inode_size;
  inode_count = inode_b_count * (block_size / inode_size);
  free_list_head = inode_b_count + 1;
}

-- A new file system: the constants are set, 3 is the next inode number, each inode is blank, and
-- the free list is in order and holds each data block once.
pub record Made (junk : Inode) (s : Fs) (ns : List ℕ) : Type 0 where
  pub geometry : IsGeometry s.super_block
  pub latest : s.super_block.latest_inum ≡ 3
  pub inodes : (n : ℕ) → IsInum n → inode_at s n ≡ blank junk
  pub list : FreeList s ns
  pub all_free : (a : ℕ) → a ≢ 0 → free_count s.disk ns a ≡ within (inode_b_count + 1) block_count a

abbrev zeroed : Disk
zeroed = write (λ _. zero_block) 0 (store_words zero_block 0 (super_words fresh_super))

-- The state when the inode list is to be made.
abbrev started : Fs
started = record { disk = zeroed; super_block = fresh_super }

start_run : (s : Fs) → init_superblock (record s { disk = λ _. zero_block }) ≡ ok true started
unfolding init_superblock write_superblock
start_run s =
    write_block-in 0 (store_words zero_block 0 (super_words fresh_super))
      (record { disk = λ _. zero_block; super_block = fresh_super }) (omega arith)

module _ (junk : Inode) (fits : Fits (blank junk)) {t u : Fs} {ns : List ℕ}
    (f : Filled inode_b_count 1 (blank junk) started t)
    (c : Chained (inode_b_count + 1) t u ns) where
  super : u.super_block ≡ fresh_super
  super = c.super ∙ f.super

  list_free : (a : ℕ) → a ≢ 0 → free_count u.disk ns a ≡ within (inode_b_count + 1) block_count a
  list_free = c.holds

  -- A data block that is no node is as `alloc_memory` left it.
  untouched : (a : ℕ) → inode_b_count < a → node_count ns a ≡ 0 → u.disk a ≡ zero_block
  untouched a h k =
      c.others a k
      ∙ (f.others a).1 h
      ∙ write_ne (λ _. zero_block) 0 a (store_words zero_block 0 (super_words fresh_super))
          (omega arith)

  list-FreeList : FreeList u ns
  list-FreeList = record {
    chain = rw (super) c.chain;
    once = λ a h. ground (arith, c.holds a h);
    data_blocks = λ a h k. ground (arith, c.holds a h);
    clean = λ a h k free i l. rw (untouched a (ground (arith, c.holds a h)) free) (word-zero i);
  }

  inodes_blank : (n : ℕ) → IsInum n → inode_at u n ≡ blank junk
  unfolding inode_at
  inodes_blank n v =
      let bounds = inode_in_block fresh_super n (record { per_block = refl; count = refl }) v in
      rw
        (
          super,
          (c.others (1 + n / 21) (c.low (1 + n / 21) (omega arith))),
          f.filled (1 + n / 21) bounds.0 (omega arith),
        )
        (load-fill_inodes 21 0 (blank junk) zero_block (n % 21) fits (omega arith) (omega arith))

  all-Made : Made junk u ns
  all-Made = record {
    geometry = rw (super) (record { per_block = refl; count = refl });
    latest = rw (super);
    inodes = inodes_blank;
    list = list-FreeList;
    all_free = list_free;
  }

make_run :
    (junk : Inode) (s t u : Fs)
    → init_inode_blocks inode_b_count 1 (blank junk) started ≡ ok true t
    → t.super_block ≡ fresh_super
    → init_nodes free_list_blocks (inode_b_count + 1) t ≡ ok true u
    → make_fs true junk s ≡ ok true u
unfolding make_fs init_inode_list init_freelist alloc_memory
make_run junk s t u run kept run' =
    simp (start_run s, run, ap (λ sb. init_nodes free_list_blocks sb.free_list_head t) kept) run'

-- When `malloc` gives the memory, `make_fs` returns true and makes a file system in which the
-- constants of the super block are set, 3 is the next inode number, each inode is blank, and the
-- free list is in order and holds each data block once.
pub make_fs-Made :
    (junk : Inode) (s : Fs)
    → Fits (blank junk)
    → (s' : Fs) × (ns : List ℕ) × (make_fs true junk s ≡ ok true s') × Made junk s' ns
make_fs-Made junk s fits =
    let (t, run, f) = init_inode_blocks-Filled inode_b_count 1 (blank junk) started (omega arith) in
    let (u, ns, run', c) =
      init_nodes-Chained free_list_blocks (inode_b_count + 1) t (omega arith) (omega arith)
        (omega arith) in
    (u, ns, make_run junk s t u run f.super run', all-Made junk fits f c)
