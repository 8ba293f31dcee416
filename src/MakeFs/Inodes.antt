-- ===== src/MakeFs/Inodes.antt =====
-- `init_inode_list` writes the blank inode to each slot of each inode block.
use file_system_fuse.Base.{
  ℕ, zero, suc, ◌+◌, ◌<◌, ◌≤◌, ◌≡◌, ◌∙◌, refl, true, inl, inr, arith, ◌==◌, Bool-cases, ==→eq,
}
use file_system_fuse.Bytes.{Block, zero_block}
use file_system_fuse.Fs.{Fs, write, ok}
use file_system_fuse.Disk.{block_count}
use file_system_fuse.Disk.Laws.{write_self, write_ne, write_block-in}
use file_system_fuse.Inode.{Inode, load_inode, store_inode}
use file_system_fuse.Inode.Layout.{Fits, load-store_inode, load-store_inode_ne}
use file_system_fuse.MakeFs.{fill_inodes, init_inode_blocks}

fill_inodes-below :
    (n i : ℕ) (inode : Inode) (b : Block) (o : ℕ)
    → Fits inode
    → o < i
    → load_inode (fill_inodes n i inode b) o ≡ load_inode b o
unfolding fill_inodes
fill_inodes-below zero i inode b o f h = refl
fill_inodes-below (suc n) i inode b o f h =
    fill_inodes-below n (i + 1) inode (store_inode b i inode) o f (omega arith)
    ∙ load-store_inode_ne b i o inode f (omega arith)

pub load-fill_inodes :
    (n i : ℕ) (inode : Inode) (b : Block) (o : ℕ)
    → Fits inode
    → i ≤ o
    → o < i + n
    → load_inode (fill_inodes n i inode b) o ≡ inode
unfolding fill_inodes
load-fill_inodes zero i inode b o f l u = absurd (omega arith)
load-fill_inodes (suc n) i inode b o f l u = elim (Bool-cases (o == i)) [
  | inl same ↦ rw (==→eq o i same) (
      fill_inodes-below n (i + 1) inode (store_inode b i inode) i f (omega arith)
      ∙ load-store_inode b i inode f)
  | inr other ↦
      load-fill_inodes n (i + 1) inode (store_inode b i inode) o f (ground (arith, other))
        (omega arith)
]

-- From `s` the blocks from `k` up to and without `k + n` are filled with the inode.
pub record Filled (n k : ℕ) (inode : Inode) (s s' : Fs) : Type 0 where
  pub filled :
      (b : ℕ)
      → k ≤ b
      → b < k + n
      → s'.disk b ≡ fill_inodes s.super_block.inodes_per_block 0 inode zero_block
  pub others : (b : ℕ) → (b < k → s'.disk b ≡ s.disk b) × (k + n ≤ b → s'.disk b ≡ s.disk b)
  pub super : s'.super_block ≡ s.super_block

abbrev with_block : ℕ → Inode → Fs → Fs
with_block k inode s = record s {
  disk = write s.disk k (fill_inodes s.super_block.inodes_per_block 0 inode zero_block);
}

cons-Filled :
    (n k : ℕ) (inode : Inode) (s s' : Fs)
    → Filled n (k + 1) inode (with_block k inode s) s'
    → Filled (suc n) k inode s s'
cons-Filled n k inode s s' f = record {
  filled = λ b l u. elim (Bool-cases (b == k)) [
    | inl same ↦ rw (==→eq b k same) (
        (f.others k).0 (omega arith)
        ∙ write_self s.disk k (fill_inodes s.super_block.inodes_per_block 0 inode zero_block))
    | inr other ↦ f.filled b (ground (arith, other)) (omega arith)
  ];
  others = λ b. (
    (λ h.
        (f.others b).0 (omega arith)
        ∙ write_ne s.disk k b (fill_inodes s.super_block.inodes_per_block 0 inode zero_block)
            (omega arith)),
    (λ h.
        (f.others b).1 (omega arith)
        ∙ write_ne s.disk k b (fill_inodes s.super_block.inodes_per_block 0 inode zero_block)
            (omega arith)),
  );
  super = f.super;
}

pub init_inode_blocks-Filled :
    (n k : ℕ) (inode : Inode) (s : Fs)
    → k + n ≤ block_count
    → (s' : Fs) × (init_inode_blocks n k inode s ≡ ok true s') × Filled n k inode s s'
unfolding init_inode_blocks
init_inode_blocks-Filled zero k inode s h = (
  s,
  refl,
  record {
    filled = λ b l u. absurd (omega arith);
    others = λ b. ((λ g. refl), (λ g. refl));
    super = refl;
  },
)
init_inode_blocks-Filled (suc n) k inode s h =
    let (s', run, f) =
      init_inode_blocks-Filled n (k + 1) inode (with_block k inode s) (omega arith) in
    (
      s',
      rw
          (write_block-in k (fill_inodes s.super_block.inodes_per_block 0 inode zero_block) s
            (omega arith))
          run,
      cons-Filled n k inode s s' f,
    )
