-- ===== src/FreeList/Same.antt =====
-- A change of the disk that leaves the free blocks leaves the free list.
use file_system_fuse.Base.{ℕ, ◌<◌, ◌≡◌, ◌≢◌, refl, List, [], ◌∷◌, arith}
use file_system_fuse.Bytes.{word}
use file_system_fuse.Fs.{Fs, Disk}
use file_system_fuse.FreeList.Chain.{FreeList, IsChain, free_count, node_count, node-le-free}

module _ (d e : Disk) where
  -- The nodes are the same.
  abbrev SameNodes : List ℕ → Type 0
  SameNodes ns = (a : ℕ) → a ≢ 0 → 0 < node_count ns a → e a ≡ d a

  rest : (n : ℕ) (ns : List ℕ) → SameNodes (n ∷ ns) → SameNodes ns
  unfolding node_count
  rest n ns h a z l = h a z (omega (arith, l))

  head : (n : ℕ) (ns : List ℕ) → n ≢ 0 → SameNodes (n ∷ ns) → e n ≡ d n
  unfolding node_count
  head n ns z h = h n z (ground arith)

  IsChain-same : (start : ℕ) (ns : List ℕ) → SameNodes ns → IsChain d start ns → IsChain e start ns
  IsChain-same start [] h c = c
  IsChain-same start (n ∷ ns) h c =
      (c.0, c.1, rw (head n ns c.1 h) (IsChain-same (word (d n) 0) ns (rest n ns h) c.2))

  free_count-same :
      (start : ℕ) (ns : List ℕ) (a : ℕ)
      → SameNodes ns
      → IsChain d start ns
      → free_count e ns a ≡ free_count d ns a
  unfolding free_count
  free_count-same start [] a h c = refl
  free_count-same start (n ∷ ns) a h c =
      rw (head n ns c.1 h, free_count-same (word (d n) 0) ns a (rest n ns h) c.2) refl

module _ {s : Fs} {ns : List ℕ} (f : FreeList s ns) (t : Fs)
    (same : (a : ℕ) → a ≢ 0 → 0 < free_count s.disk ns a → t.disk a ≡ s.disk a) where
  nodes : SameNodes s.disk t.disk ns
  nodes a z l = same a z (omega (arith, l, node-le-free s.disk ns a))

  pub free_count-kept : (a : ℕ) → free_count t.disk ns a ≡ free_count s.disk ns a
  free_count-kept a = free_count-same s.disk t.disk s.super_block.free_list_head ns a nodes f.chain

  pub FreeList-kept : t.super_block.free_list_head ≡ s.super_block.free_list_head → FreeList t ns
  FreeList-kept e = record {
    chain = rw e (IsChain-same s.disk t.disk s.super_block.free_list_head ns nodes f.chain);
    once = λ a z. rw (free_count-kept a) (f.once a z);
    data_blocks = λ a z l. f.data_blocks a z (rw (← free_count-kept a) l);
    clean = λ a z l n.
        let l' : 0 < free_count s.disk ns a = omega (arith, l, free_count-kept a) in
        rw (same a z l') (f.clean a z l' n);
  }
