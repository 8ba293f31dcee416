-- ===== src/FreeList/Chain.antt =====
-- What the free list on the disk stands for: its nodes, and how often a block is free.
use file_system_fuse.Base.{ℕ, ◌+◌, ◌-◌, ◌≤◌, ◌<◌, ◌≡◌, refl, ◌≢◌, List, [], ◌∷◌, true, arith}
use file_system_fuse.Bytes.{Block, word, store_words, zero_block}
use file_system_fuse.Fs.{Fs, Disk, write, ok}
use file_system_fuse.Disk.{block_count}
use file_system_fuse.Disk.Laws.{write_ne, write_block-in}
use file_system_fuse.FreeList.{
  inode_b_count, dblocks_per_block, super_words, write_superblock, set_free_list_head,
}
use file_system_fuse.FreeList.Entries.{is, listed}

-- The entries of a node are its words 1 to 511.
abbrev pub entries : Block → ℕ → ℕ
entries = listed (dblocks_per_block - 1) 1

-- From `head` the words 0 lead through the nodes to 0.
abbrev pub IsChain : Disk → ℕ → List ℕ → Type 0
IsChain d head [] = head ≡ 0
IsChain d head (n ∷ ns) = (head ≡ n) × (n ≢ 0) × IsChain d (word (d n) 0) ns

-- How often `a` is on the list, as a node or as an entry.
unfoldable pub free_count : Disk → List ℕ → ℕ → ℕ
free_count d [] a = 0
free_count d (n ∷ ns) a = is a n + entries (d n) a + free_count d ns a

pub free_count-cons :
    (d : Disk) (n : ℕ) (ns : List ℕ) (a : ℕ)
    → free_count d (n ∷ ns) a ≡ is a n + entries (d n) a + free_count d ns a
unfolding free_count
free_count-cons d n ns a = refl

-- How often `a` is a node.
unfoldable pub node_count : List ℕ → ℕ → ℕ
node_count [] a = 0
node_count (n ∷ ns) a = is a n + node_count ns a

pub node-le-free : (d : Disk) (ns : List ℕ) (a : ℕ) → node_count ns a ≤ free_count d ns a
unfolding node_count free_count
node-le-free d [] a = omega arith
node-le-free d (n ∷ ns) a = omega (arith, node-le-free d ns a)

module _ (d : Disk) (m : ℕ) (b : Block) where
  -- A write to a block that is no node is not seen.
  pub free_count-write :
      (ns : List ℕ) (a : ℕ)
      → node_count ns m ≡ 0
      → free_count (write d m b) ns a ≡ free_count d ns a
  unfolding node_count free_count
  free_count-write [] a h = refl
  free_count-write (n ∷ ns) a h =
      let apart : n ≢ m = ground arith in
      rw (write_ne d m n b apart, free_count-write ns a (omega arith))

  pub IsChain-write :
      (head : ℕ) (ns : List ℕ)
      → node_count ns m ≡ 0
      → IsChain d head ns
      → IsChain (write d m b) head ns
  unfolding node_count
  IsChain-write head [] h c = c
  IsChain-write head (n ∷ ns) h c =
      let apart : n ≢ m = ground arith in
      (c.0, c.1, rw (write_ne d m n b apart) (IsChain-write (word (d n) 0) ns (omega arith) c.2))

-- A block that `create_new_dblock` may hand out.
abbrev pub IsDataBlock : ℕ → Type 0
IsDataBlock n = (inode_b_count < n) × (n < block_count)

abbrev pub IsZero : Block → Type 0
IsZero b = (i : ℕ) → i < dblocks_per_block → word b i ≡ 0

-- The free list is in order: a chain of nodes on which each block stands at most once, all of them
-- data blocks, and those that are no nodes hold zeros.
pub record FreeList (s : Fs) (ns : List ℕ) : Type 0 where
  pub chain : IsChain s.disk s.super_block.free_list_head ns
  pub once : (a : ℕ) → a ≢ 0 → free_count s.disk ns a ≤ 1
  pub data_blocks : (a : ℕ) → a ≢ 0 → 0 < free_count s.disk ns a → IsDataBlock a
  pub clean : (a : ℕ) → a ≢ 0 → 0 < free_count s.disk ns a → node_count ns a ≡ 0 → IsZero (s.disk a)

-- The super block as `write_superblock` leaves it on the disk.
unfoldable pub super_image : Fs → ℕ → Block
super_image s n =
    store_words zero_block 0 (super_words (record (s.super_block) { free_list_head = n }))

pub set_free_list_head_lem :
    (n : ℕ) (s : Fs)
    → set_free_list_head n s
      ≡ ok true (record {
        disk = write s.disk 0 (super_image s n);
        super_block = record (s.super_block) { free_list_head = n };
      })
unfolding set_free_list_head write_superblock super_image
set_free_list_head_lem n s =
    write_block-in 0 _ (record s { super_block = record (s.super_block) { free_list_head = n } })
      (omega arith)

-- 0 is no node.
pub node_count-zero : (d : Disk) (head : ℕ) (ns : List ℕ) → IsChain d head ns → node_count ns 0 ≡ 0
unfolding node_count
node_count-zero d head [] c = refl
node_count-zero d head (n ∷ ns) c = ground (arith, node_count-zero d (word (d n) 0) ns c.2)

-- The node at the head of a list in order.
module _ {s : Fs} {n : ℕ} {ns : List ℕ} (f : FreeList s (n ∷ ns)) where
  -- It stands nowhere else on the list.
  pub head_once : (free_count s.disk ns n ≡ 0) × (entries (s.disk n) n ≡ 0) × (node_count ns n ≡ 0)
  unfolding free_count
  head_once = ground (arith, f.once n f.chain.1, node-le-free s.disk ns n)

  pub head-IsDataBlock : IsDataBlock n
  unfolding free_count
  head-IsDataBlock = f.data_blocks n f.chain.1 (ground arith)

  pub head_not_zero : node_count ns 0 ≡ 0
  head_not_zero = node_count-zero s.disk (word (s.disk n) 0) ns f.chain.2
