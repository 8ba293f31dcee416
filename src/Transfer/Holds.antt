-- ===== src/Transfer/Holds.antt =====
-- A file that stays in its direct blocks, none of which is free.
use file_system_fuse.Base.{ℕ, ◌≤◌, ◌<◌, ◌≡◌, ◌≢◌, ◌∙◌, refl, ap, some, List, arith, get_elem?}
use file_system_fuse.Fs.{Fs}
use file_system_fuse.FreeList.{inode_b_count}
use file_system_fuse.Inode.{inode_num_to_block_id, inode_num_to_offset, load_inode}
use file_system_fuse.Inode.Store.{IsGeometry, IsInum, inode_at, inode_in_block}
use file_system_fuse.FreeList.{inode_b_count}
use file_system_fuse.FreeList.Chain.{FreeList, IsDataBlock, free_count, node-le-free}
use file_system_fuse.FreeList.Create.{Allocated}
use file_system_fuse.Inode.{Inode, direct_b_count}
use file_system_fuse.Inode.Layout.{Fits}
use file_system_fuse.FileMap.Lookup.{lookup_direct}
use file_system_fuse.Transfer.Content.{IsMapped}

-- The file has its blocks in the array of the inode; none of them is on the free list, which is in
-- order.
pub record Holds (inode : Inode) (s : Fs) (ns : List ℕ) (blk : ℕ → ℕ) : Type 0 where
  pub list : FreeList s ns
  pub fits : Fits inode
  pub few : inode.num_blocks ≤ direct_b_count
  pub at : (k : ℕ) → k < inode.num_blocks → get_elem? inode.direct_blocks k ≡ some (blk k)
  pub data_block : (k : ℕ) → k < inode.num_blocks → IsDataBlock (blk k)
  pub once : (j k : ℕ) → j < inode.num_blocks → k < inode.num_blocks → j ≢ k → blk j ≢ blk k
  pub not_free : (k : ℕ) → k < inode.num_blocks → free_count s.disk ns (blk k) ≡ 0

pub Holds-IsMapped :
    {inode : Inode} {s : Fs} {ns : List ℕ} {blk : ℕ → ℕ}
    → Holds inode s ns blk
    → IsMapped inode s inode.num_blocks blk
Holds-IsMapped {inode} {blk = blk} h = record {
  data_block = h.data_block;
  once = h.once;
  lookup = λ t o k l.
      let few = h.few in
      lookup_direct inode k t (omega arith) (omega arith) (blk k) (omega arith) (h.at k l);
}

-- What is not on the free list is the same in both states, and the constants of the super block are.
pub record Kept (s : Fs) (ns : List ℕ) (s' : Fs) (ns' : List ℕ) : Type 0 where
  pub held :
      (a : ℕ)
      → a ≢ 0
      → free_count s.disk ns a ≡ 0
      → (s'.disk a ≡ s.disk a) × (free_count s'.disk ns' a ≡ 0)
  pub per_block : s'.super_block.inodes_per_block ≡ s.super_block.inodes_per_block
  pub inode_count : s'.super_block.inode_count ≡ s.super_block.inode_count

pub Kept-refl : (s : Fs) (ns : List ℕ) → Kept s ns s ns
Kept-refl s ns = record { held = λ a n h. (refl, h); per_block = refl; inode_count = refl }

pub Kept-trans : {s t u : Fs} {ns ms ks : List ℕ} → Kept s ns t ms → Kept t ms u ks → Kept s ns u ks
Kept-trans p q = record {
  held = λ a n h. let (e, f) = p.held a n h in let (e', f') = q.held a n f in (e' ∙ e, f');
  per_block = q.per_block ∙ p.per_block;
  inode_count = q.inode_count ∙ p.inode_count;
}

pub Allocated-Kept : {s t : Fs} {ns ms : List ℕ} {d : ℕ} → Allocated s ns d t ms → Kept s ns t ms
Allocated-Kept {s} {t} {ns} {ms} al = record {
  held = λ a n h.
      (al.others a n (omega (arith, node-le-free s.disk ns a)), omega (arith, al.taken a n));
  per_block = al.per_block;
  inode_count = al.inode_count;
}

pub not_data_free :
    {s : Fs} {ns : List ℕ}
    → FreeList s ns
    → (a : ℕ) → a ≢ 0
    → a ≤ inode_b_count
    → free_count s.disk ns a ≡ 0
not_data_free f a z l = ground (arith, f.data_blocks a z)

pub IsGeometry-Kept :
    {s s' : Fs} {ns ns' : List ℕ}
    → IsGeometry s.super_block
    → Kept s ns s' ns'
    → IsGeometry s'.super_block
IsGeometry-Kept g k = record {
  per_block = k.per_block ∙ g.per_block;
  count = k.inode_count ∙ g.count;
}

-- An inode that is not on the free list is the same.
pub inode_at-Kept :
    {s s' : Fs} {ns ns' : List ℕ}
    → IsGeometry s.super_block
    → FreeList s ns
    → Kept s ns s' ns'
    → (j : ℕ) → IsInum j
    → inode_at s' j ≡ inode_at s j
unfolding inode_at
inode_at-Kept {s} {s'} {ns} g f k j v =
    let (first, last, room) = inode_in_block s.super_block j g v in
    let z : inode_num_to_block_id s.super_block j ≢ 0 = omega (arith, first) in
    rw k.per_block (
      ap (λ b. load_inode b (inode_num_to_offset s.super_block j))
        (k.held (inode_num_to_block_id s.super_block j) z (not_data_free f _ z last)).0)
