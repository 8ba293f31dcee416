-- ===== src/MakeFs/Nodes.antt =====
-- `init_freelist` chains up all the data blocks.
use file_system_fuse.Base.{
  ℕ, zero, suc, ◌+◌, ◌-◌, ◌*◌, ◌<◌, ◌≤◌, ◌^◌, ◌≡◌, ◌≢◌, ◌∙◌, refl, List, [], ◌∷◌, true, ◌&&◌, inl,
  inr, arith, ltb, leb, if◌then◌else◌, Bool-cases,
}
use file_system_fuse.Bytes.{Block, zero_block, word, set_word}
use file_system_fuse.Bytes.Words.{word-set_self, word-set_ne}
use file_system_fuse.Fs.{Fs, write, ok}
use file_system_fuse.Disk.{block_count}
use file_system_fuse.Disk.Laws.{write_self, write_ne, write_block-in}
use file_system_fuse.FreeList.{dblocks_per_block}
use file_system_fuse.FreeList.Entries.{listed, listed-congr}
use file_system_fuse.FreeList.Chain.{IsChain, entries, free_count, free_count-cons, node_count}
use file_system_fuse.MakeFs.{address, fill_node, node_block, init_nodes}

-- 1 if `a` lies from `lo` up to and without `hi`, and 0 if not.
abbrev pub within : ℕ → ℕ → ℕ → ℕ
within lo hi a = if leb lo a && ltb a hi then 1 else 0

fill_node-below : (n j k : ℕ) (b : Block) (i : ℕ) → i < j → word (fill_node n j k b) i ≡ word b i
unfolding fill_node
fill_node-below zero j k b i h = refl
fill_node-below (suc n) j k b i h =
    fill_node-below n (j + 1) (k + 1) (set_word b j (address (k + 1))) i (omega arith)
    ∙ word-set_ne b j i (address (k + 1)) (omega arith)

address-lt : (k : ℕ) → address k < 2 ^ 64
address-lt k = ground arith

-- The entries are the `n` blocks after `k`, as far as the disk has them.
listed-fill_node :
    (n j k : ℕ) (b : Block) (a : ℕ)
    → a ≢ 0
    → listed n j (fill_node n j k b) a
      ≡ (if ltb a block_count then within (k + 1) (k + 1 + n) a else 0)
unfolding fill_node listed
listed-fill_node zero j k b a h = ground arith
listed-fill_node (suc n) j k b a h = ground (
  arith,
  fill_node-below n (j + 1) (k + 1) (set_word b j (address (k + 1))) j (omega arith),
  word-set_self b j (address (k + 1)) (address-lt (k + 1)),
  listed-fill_node n (j + 1) (k + 1) (set_word b j (address (k + 1))) a h,
)

entries-node_block :
    (k a : ℕ)
    → a ≢ 0
    → entries (node_block k) a
      ≡ (if ltb a block_count then within (k + 1) (k + dblocks_per_block) a else 0)
unfolding node_block
entries-node_block k a h =
    listed-congr (dblocks_per_block - 1) 1 (node_block k)
      (fill_node (dblocks_per_block - 1) 1 k zero_block) a
      (λ j l u.
        word-set_ne (fill_node (dblocks_per_block - 1) 1 k zero_block) 0 j
          (address (k + dblocks_per_block)) (omega arith))
    ∙ listed-fill_node (dblocks_per_block - 1) 1 k zero_block a h
    ∙ ground arith

next-node_block : (k : ℕ) → word (node_block k) 0 ≡ address (k + dblocks_per_block)
unfolding node_block
next-node_block k =
    word-set_self (fill_node (dblocks_per_block - 1) 1 k zero_block) 0
      (address (k + dblocks_per_block)) (address-lt (k + dblocks_per_block))

-- The list from block `k` on holds each block of the disk from there on once.
pub record Chained (k : ℕ) (s s' : Fs) (ns : List ℕ) : Type 0 where
  pub chain : IsChain s'.disk k ns
  pub holds : (a : ℕ) → a ≢ 0 → free_count s'.disk ns a ≡ within k block_count a
  pub low : (a : ℕ) → a < k → node_count ns a ≡ 0
  pub others : (m : ℕ) → node_count ns m ≡ 0 → s'.disk m ≡ s.disk m
  pub super : s'.super_block ≡ s.super_block

-- The state after the block of the node `k` is written.
abbrev with_node : ℕ → Fs → Fs
with_node k s = record s { disk = write s.disk k (node_block k) }

-- The last node.
last-Chained :
    (k : ℕ) (s : Fs)
    → 0 < k
    → k < block_count
    → block_count ≤ k + dblocks_per_block
    → Chained k s (with_node k s) (k ∷ [])
last-Chained k s p l u = record {
  chain = (
    refl,
    (λ z. absurd (omega (arith, z))),
    rw (write_self s.disk k (node_block k), next-node_block k) (ground arith),
  );
  holds = λ a h.
      rw
        (
          free_count-cons (with_node k s).disk k [] a,
          write_self s.disk k (node_block k),
          entries-node_block k a h,
        )
        (unfold free_count in ground arith);
  low = λ a h. unfold node_count in ground arith;
  others = λ m h. write_ne s.disk k m (node_block k) (not_head m h);
  super = refl;
}
  where
    not_head : (m : ℕ) → node_count (k ∷ []) m ≡ 0 → m ≢ k
    not_head m h = unfold node_count in ground arith

-- A node before a list.
cons-Chained :
    (k : ℕ) (s s' : Fs) (ns : List ℕ)
    → 0 < k
    → k + dblocks_per_block < block_count
    → Chained (k + dblocks_per_block) (with_node k s) s' ns
    → Chained k s s' (k ∷ ns)
unfolding node_count
cons-Chained k s s' ns p l c = record {
  chain = (refl, (λ z. absurd (omega (arith, z))), rw (kept, next-node_block k, not_last) c.chain);
  holds = λ a h.
      rw (free_count-cons s'.disk k ns a, kept, entries-node_block k a h, c.holds a h)
        (ground arith);
  low = λ a h. ground (arith, c.low a);
  others = λ m h. ground (arith, c.others m, write_ne s.disk k m (node_block k));
  super = c.super;
}
  where
    kept : s'.disk k ≡ node_block k
    kept = c.others k (c.low k (omega arith)) ∙ write_self s.disk k (node_block k)

    not_last : address (k + dblocks_per_block) ≡ k + dblocks_per_block
    not_last = ground arith

init_nodes-round :
    (n k : ℕ) (s : Fs)
    → k < block_count
    → init_nodes (suc n) k s ≡ (
        if leb block_count (k + dblocks_per_block)
        then ok true (with_node k s)
        else init_nodes n (k + dblocks_per_block) (with_node k s))
unfolding init_nodes
init_nodes-round n k s l = rw (write_block-in k (node_block k) s l) (ground arith)

-- From block `k` on, with enough rounds left, the loop chains up the rest of the disk.
pub init_nodes-Chained :
    (n k : ℕ) (s : Fs)
    → 0 < k
    → k < block_count
    → block_count ≤ k + n * dblocks_per_block
    → (s' : Fs) × (ns : List ℕ) × (init_nodes n k s ≡ ok true s') × Chained k s s' ns
init_nodes-Chained zero k s p l u = absurd (omega arith)
init_nodes-Chained (suc n) k s p l u = elim (Bool-cases (leb block_count (k + dblocks_per_block))) [
  | inl last ↦ (
    with_node k s,
    k ∷ [],
    init_nodes-round n k s l ∙ rw last refl,
    last-Chained k s p l (ground arith),
  )
  | inr more ↦
      let (s', ns, run, c) =
        init_nodes-Chained n (k + dblocks_per_block) (with_node k s) (omega arith) (ground arith)
          (omega arith) in
      (
        s',
        k ∷ ns,
        init_nodes-round n k s l ∙ rw more run,
        cons-Chained k s s' ns p (ground arith) c,
      )
]
