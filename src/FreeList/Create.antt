-- ===== src/FreeList/Create.antt =====
-- `create_new_dblock` takes one block off a free list that is in order.
use file_system_fuse.Base.{
  refl, [], ==→ne, inr, ==→eq, inl, zero, ◌==◌, Bool-cases, ◌∙◌, suc, ℕ, ◌+◌, ◌-◌, ◌<◌, ◌≡◌, ◌≢◌,
  List, ◌∷◌, arith,
}
use file_system_fuse.Base.Ssize.{minus_one}
use file_system_fuse.Bytes.Words.{word-set_self, word-set_ne}
use file_system_fuse.Bytes.{Block, word, set_word, zero_block}
use file_system_fuse.Fs.{Fs, write, ok}
use file_system_fuse.Disk.Laws.{write_self, write_ne, write_block-in, read_block-in}
use file_system_fuse.FreeList.{dblocks_per_block, create_new_dblock, take_entry}
use file_system_fuse.FreeList.Entries.{
  is, take_entry-below, take_entry-none, listed-zero, listed-take_entry,
}
use file_system_fuse.FreeList.Chain.{
  head_not_zero, free_count, node_count, node-le-free, free_count-write, IsChain-write, IsDataBlock,
  IsZero, FreeList, super_image, set_free_list_head_lem, head_once, head-IsDataBlock,
}

-- From `s`, with the nodes `ns`, the block `ans` has been taken.
pub record Allocated (s : Fs) (ns : List ℕ) (ans : ℕ) (s' : Fs) (ns' : List ℕ) : Type 0 where
  pub order : FreeList s' ns'
  pub data_block : IsDataBlock ans
  pub taken : (a : ℕ) → a ≢ 0 → free_count s.disk ns a ≡ is a ans + free_count s'.disk ns' a
  pub zeros : IsZero (s'.disk ans)
  pub others : (m : ℕ) → m ≢ 0 → node_count ns m ≡ 0 → s'.disk m ≡ s.disk m
  pub per_block : s'.super_block.inodes_per_block ≡ s.super_block.inodes_per_block
  pub inode_count : s'.super_block.inode_count ≡ s.super_block.inode_count

-- With no head there is no block to hand out.
pub create_new_dblock-full :
    (s : Fs) → s.super_block.free_list_head ≡ 0 → create_new_dblock s ≡ ok minus_one s
unfolding create_new_dblock
create_new_dblock-full s h = rw h

module _ (s : Fs) (n : ℕ) (ns : List ℕ) (f : FreeList s (n ∷ ns)) where
  abbrev found : ℕ × Block
  found = take_entry (dblocks_per_block - 1) 1 (s.disk n)

  -- The state after an entry is taken.
  abbrev from_entry : Fs
  from_entry = record s { disk = write s.disk n found.1 }

  -- The state after the node itself is taken.
  abbrev from_node : Fs
  from_node = record {
    disk = write (write s.disk 0 (super_image s (word (s.disk n) 0))) n (set_word (s.disk n) 0 0);
    super_block = record (s.super_block) { free_list_head = word (s.disk n) 0 };
  }

  run_entry : found.0 ≢ 0 → create_new_dblock s ≡ ok found.0 from_entry
  unfolding create_new_dblock
  run_entry ne =
      let in_range = head-IsDataBlock f in
      ground (
        arith,
        f.chain.0,
        f.chain.1,
        read_block-in n zero_block s in_range.1,
        write_block-in n found.1 s in_range.1,
      )

  run_node : found.0 ≡ 0 → create_new_dblock s ≡ ok n from_node
  unfolding create_new_dblock
  run_node e =
      let in_range = head-IsDataBlock f in
      ground (
        arith,
        f.chain.0,
        f.chain.1,
        read_block-in n zero_block s in_range.1,
        (take_entry-none (dblocks_per_block - 1) 1 (s.disk n) e).0,
        set_free_list_head_lem (word (s.disk n) 0) s,
        write_block-in n (set_word (s.disk n) 0 0)
            (record s {
              disk = write s.disk 0 (super_image s (word (s.disk n) 0));
              super_block = record (s.super_block) { free_list_head = word (s.disk n) 0 };
            })
            in_range.1,
      )

  count_entry :
      found.0 ≢ 0
      → (a : ℕ) → a ≢ 0
      → free_count s.disk (n ∷ ns) a ≡ is a found.0 + free_count from_entry.disk (n ∷ ns) a
  unfolding free_count
  count_entry ne a h =
      rw (write_self s.disk n found.1, free_count-write s.disk n found.1 ns a (head_once f).2)
        (omega (arith, listed-take_entry (dblocks_per_block - 1) 1 (s.disk n) a ne h))

  -- The entry that is taken is on the list, and is no node.
  entry_listed : found.0 ≢ 0 → 0 < free_count s.disk (n ∷ ns) found.0
  entry_listed ne = ground (arith, count_entry ne found.0 ne)

  entry_no_node : found.0 ≢ 0 → node_count (n ∷ ns) found.0 ≡ 0
  unfolding free_count node_count
  entry_no_node ne = ground (
    arith,
    f.once found.0 ne,
    node-le-free s.disk ns found.0,
    listed-take_entry (dblocks_per_block - 1) 1 (s.disk n) found.0 ne ne,
  )

  node_ne : (a : ℕ) → node_count (n ∷ ns) a ≡ 0 → a ≢ n
  unfolding node_count
  node_ne a h = ground arith

  entry-FreeList : found.0 ≢ 0 → FreeList from_entry (n ∷ ns)
  entry-FreeList ne = record {
    chain = (
      f.chain.0,
      f.chain.1,
      rw
          (
            write_self s.disk n found.1,
            take_entry-below (dblocks_per_block - 1) 1 (s.disk n) 0 (omega arith),
          )
          (IsChain-write s.disk n found.1 (word (s.disk n) 0) ns (head_once f).2 f.chain.2),
    );
    once = λ a h. omega (arith, f.once a h, count_entry ne a h);
    data_blocks = λ a h k. f.data_blocks a h (omega (arith, count_entry ne a h));
    clean = λ a h k free.
        rw (write_ne s.disk n a found.1 (node_ne a free))
          (f.clean a h (omega (arith, count_entry ne a h)) free);
  }

  entry-Allocated : found.0 ≢ 0 → Allocated s (n ∷ ns) found.0 from_entry (n ∷ ns)
  entry-Allocated ne = record {
    order = entry-FreeList ne;
    data_block = f.data_blocks found.0 ne (entry_listed ne);
    taken = count_entry ne;
    zeros =
        rw (write_ne s.disk n found.0 found.1 (node_ne found.0 (entry_no_node ne)))
          (f.clean found.0 ne (entry_listed ne) (entry_no_node ne));
    others = λ m h k. write_ne s.disk n m found.1 (node_ne m k);
    per_block = refl;
    inode_count = refl;
  }

  tail_write : (a : ℕ) → free_count from_node.disk ns a ≡ free_count s.disk ns a
  tail_write a =
      free_count-write (write s.disk 0 (super_image s (word (s.disk n) 0))) n
        (set_word (s.disk n) 0 0) ns a (head_once f).2
      ∙ free_count-write s.disk 0 (super_image s (word (s.disk n) 0)) ns a (head_not_zero f)

  count_node :
      found.0 ≡ 0
      → (a : ℕ) → a ≢ 0
      → free_count s.disk (n ∷ ns) a ≡ is a n + free_count from_node.disk ns a
  unfolding free_count
  count_node e a h =
      let none_listed = (take_entry-none (dblocks_per_block - 1) 1 (s.disk n) e).1 in
      omega (arith, tail_write a, listed-zero (dblocks_per_block - 1) 1 (s.disk n) a h none_listed)

  unchanged : (m : ℕ) → m ≢ 0 → m ≢ n → from_node.disk m ≡ s.disk m
  unchanged m h k =
      write_ne (write s.disk 0 (super_image s (word (s.disk n) 0))) n m (set_word (s.disk n) 0 0) k
      ∙ write_ne s.disk 0 m (super_image s (word (s.disk n) 0)) h

  node-FreeList : found.0 ≡ 0 → FreeList from_node ns
  unfolding node_count
  node-FreeList e = record {
    chain =
        IsChain-write (write s.disk 0 (super_image s (word (s.disk n) 0))) n
          (set_word (s.disk n) 0 0) (word (s.disk n) 0) ns (head_once f).2
          (IsChain-write s.disk 0 (super_image s (word (s.disk n) 0)) (word (s.disk n) 0) ns
            (head_not_zero f) f.chain.2);
    once = λ a h. omega (arith, f.once a h, count_node e a h);
    data_blocks = λ a h k. f.data_blocks a h (omega (arith, count_node e a h));
    clean = λ a h k free.
        let apart : a ≢ n = λ same. once_only a h k same in
        rw (unchanged a h apart)
          (f.clean a h (omega (arith, count_node e a h)) (ground (arith, apart)));
  }
    where
      once_only : (a : ℕ) → a ≢ 0 → 0 < free_count from_node.disk ns a → a ≢ n
      once_only a h k same = ground (arith, f.once a h, count_node e a h)

  node-Allocated : found.0 ≡ 0 → Allocated s (n ∷ ns) n from_node ns
  unfolding node_count
  node-Allocated e = record {
    order = node-FreeList e;
    data_block = head-IsDataBlock f;
    taken = count_node e;
    zeros = zeros;
    others = λ m h k. unchanged m h (ground arith);
    per_block = refl;
    inode_count = refl;
  }
    where
      zeros : IsZero (from_node.disk n)
      zeros zero h =
          rw
            (write_self (write s.disk 0 (super_image s (word (s.disk n) 0))) n
              (set_word (s.disk n) 0 0))
            (word-set_self (s.disk n) 0 0 (omega arith))
      zeros (suc i) h =
          rw
            (write_self (write s.disk 0 (super_image s (word (s.disk n) 0))) n
              (set_word (s.disk n) 0 0))
            (word-set_ne (s.disk n) 0 (suc i) 0 (omega arith)
              ∙ (take_entry-none (dblocks_per_block - 1) 1 (s.disk n) e).1 (suc i) (omega arith)
                  (omega arith))

-- With a free list that is in order and not empty, `create_new_dblock` returns a data block that was
-- free and is not any more; every other block is as often free as before and the list stays in
-- order; the block reads as zeros; and no block that was not a node of the list changes, but for
-- the super block, whose constants stay.
pub create_new_dblock-Allocated :
    (s : Fs) (ns : List ℕ)
    → FreeList s ns
    → s.super_block.free_list_head ≢ 0
    → (ans : ℕ) × (s' : Fs) × (ns' : List ℕ) × (create_new_dblock s ≡ ok ans s')
      × Allocated s ns ans s' ns'
create_new_dblock-Allocated s [] f h = absurd (h f.chain)
create_new_dblock-Allocated s (n ∷ ns) f h = elim (Bool-cases ((found s n ns f).0 == 0)) [
  | inl e ↦
      let e' = ==→eq _ _ e in
      (n, from_node s n ns f, ns, run_node s n ns f e', node-Allocated s n ns f e')
  | inr e ↦
      let e' = ==→ne _ _ e in
      (
        (found s n ns f).0,
        from_entry s n ns f,
        n ∷ ns,
        run_entry s n ns f e',
        entry-Allocated s n ns f e',
      )
]
