-- ===== src/FreeList/Free.antt =====
-- `free_dblock` puts a block on a free list that is in order.
use file_system_fuse.Base.{
  ==→ne, ==→eq, ◌≤◌, ℕ, ◌==◌, ◌≤◌, ◌+◌, ◌-◌, ◌<◌, ◌≡◌, ◌≢◌, ◌∙◌, refl, List, [], ◌∷◌, Bool, true,
  false, inl, inr, Bool-cases, arith,
}
use file_system_fuse.Base.Ssize.{slt, sle}
use file_system_fuse.Bytes.{Block, word, set_word, zero_block}
use file_system_fuse.Bytes.Words.{word-set_self, word-set_ne, word-zero}
use file_system_fuse.Fs.{Fs, Disk, write, ok}
use file_system_fuse.Disk.Laws.{write_self, write_ne, write_block-in, read_block-in}
use file_system_fuse.FreeList.{
  dblocks_per_block, free_dblock, insert_free, put_entry, is_invalid_dblock,
}
use file_system_fuse.FreeList.Entries.{is, listed-zero, put_entry-below, listed-put_entry}
use file_system_fuse.FreeList.Chain.{
  IsChain, free_count-cons, free_count, node_count, node-le-free, free_count-write, IsChain-write,
  IsDataBlock, IsZero, FreeList, super_image, set_free_list_head_lem, head_once, head-IsDataBlock,
  node_count-zero,
}

pub valid_dblock : (n : ℕ) → IsDataBlock n → is_invalid_dblock n ≡ false
unfolding is_invalid_dblock slt sle
valid_dblock n h = ground arith

-- From `s`, with the nodes `ns`, the block `d` has been given back.
pub record Freed (s : Fs) (ns : List ℕ) (d : ℕ) (s' : Fs) (ns' : List ℕ) : Type 0 where
  pub order : FreeList s' ns'
  pub given : (a : ℕ) → a ≢ 0 → free_count s'.disk ns' a ≡ is a d + free_count s.disk ns a
  pub others : (m : ℕ) → m ≢ 0 → m ≢ d → node_count ns m ≡ 0 → s'.disk m ≡ s.disk m

module _ (s : Fs) (n : ℕ) (ns : List ℕ) (d : ℕ) (f : FreeList s (n ∷ ns)) (in_data : IsDataBlock d)
    (used : free_count s.disk (n ∷ ns) d ≡ 0) where
  -- The block is flushed first.
  abbrev cleared : Disk
  cleared = write s.disk d zero_block

  abbrev slot : Bool × Block
  slot = put_entry (dblocks_per_block - 1) 1 d (s.disk n)

  -- The block became an entry of the head.
  abbrev as_entry : Fs
  as_entry = record s { disk = write cleared n slot.1 }

  -- The block became the head.
  abbrev with_super : Disk
  with_super = write cleared 0 (super_image (record s { disk = cleared }) d)

  abbrev as_head : Fs
  as_head = record {
    disk = write with_super d (set_word zero_block 0 n);
    super_block = record (s.super_block) { free_list_head = d };
  }

  no_node : node_count (n ∷ ns) d ≡ 0
  no_node = omega (arith, node-le-free s.disk (n ∷ ns) d, used)

  n_ne_d : n ≢ d
  unfolding node_count
  n_ne_d = ground (arith, no_node)

  tail_no_node : node_count ns d ≡ 0
  unfolding node_count
  tail_no_node = omega (arith, no_node)

  read_head : cleared n ≡ s.disk n
  read_head = write_ne s.disk d n zero_block n_ne_d

  run_entry : slot.0 ≡ true → free_dblock d s ≡ ok true as_entry
  unfolding free_dblock insert_free
  run_entry e = ground (
    arith,
    valid_dblock d in_data,
    f.chain.0,
    f.chain.1,
    read_head,
    write_block-in d zero_block s in_data.1,
    read_block-in n zero_block (record s { disk = cleared }) (head-IsDataBlock f).1,
    write_block-in n slot.1 (record s { disk = cleared }) (head-IsDataBlock f).1,
  )

  run_head : slot.0 ≡ false → free_dblock d s ≡ ok true as_head
  unfolding free_dblock insert_free
  run_head e = ground (
    arith,
    valid_dblock d in_data,
    f.chain.0,
    f.chain.1,
    read_head,
    write_block-in d zero_block s in_data.1,
    read_block-in n zero_block (record s { disk = cleared }) (head-IsDataBlock f).1,
    set_free_list_head_lem d (record s { disk = cleared }),
    write_block-in d (set_word zero_block 0 n)
        (record { disk = with_super; super_block = record (s.super_block) { free_list_head = d } })
        in_data.1,
  )

  tail_entry : (a : ℕ) → free_count as_entry.disk ns a ≡ free_count s.disk ns a
  tail_entry a =
      free_count-write cleared n slot.1 ns a (head_once f).2
      ∙ free_count-write s.disk d zero_block ns a tail_no_node

  count_entry :
      slot.0 ≡ true
      → (a : ℕ) → a ≢ 0
      → free_count as_entry.disk (n ∷ ns) a ≡ is a d + free_count s.disk (n ∷ ns) a
  unfolding free_count
  count_entry e a h = rw (write_self cleared n slot.1) (
      omega (
        arith,
        tail_entry a,
        listed-put_entry (dblocks_per_block - 1) 1 d (s.disk n) a e h (omega arith),
      ))

  node_ne : (a : ℕ) → node_count (n ∷ ns) a ≡ 0 → a ≢ n
  unfolding node_count
  node_ne a h = ground arith

  -- A block other than `d` is as often free as before, and `d` is free once.
  once_more : (a c : ℕ) → a ≢ 0 → c ≡ is a d + free_count s.disk (n ∷ ns) a → c ≤ 1
  once_more a c h e = ground (arith, used, f.once a h)

  data_more : (a c : ℕ) → a ≢ 0 → c ≡ is a d + free_count s.disk (n ∷ ns) a → 0 < c → IsDataBlock a
  data_more a c h e k = ground (arith, in_data, f.data_blocks a h)

  clean_entry :
      slot.0 ≡ true
      → (a : ℕ) → a ≢ 0
      → 0 < free_count as_entry.disk (n ∷ ns) a
      → node_count (n ∷ ns) a ≡ 0
      → IsZero (as_entry.disk a)
  clean_entry e a h k free =
      rw (write_ne cleared n a slot.1 (node_ne a free)) (elim (Bool-cases (a == d)) [
        | inl same ↦ rw (==→eq a d same, write_self s.disk d zero_block) (λ i l. word-zero i)
        | inr other ↦
            rw (write_ne s.disk d a zero_block (==→ne a d other))
              (f.clean a h (ground (arith, count_entry e a h)) free)
      ])

  entry-Freed : slot.0 ≡ true → Freed s (n ∷ ns) d as_entry (n ∷ ns)
  entry-Freed e = record {
    order = record {
      chain = (
        f.chain.0,
        f.chain.1,
        rw
            (
              write_self cleared n slot.1,
              put_entry-below (dblocks_per_block - 1) 1 d (s.disk n) 0 (omega arith),
            )
            (IsChain-write cleared n slot.1 (word (s.disk n) 0) ns (head_once f).2
              (IsChain-write s.disk d zero_block (word (s.disk n) 0) ns tail_no_node f.chain.2)),
      );
      once = λ a h. once_more a _ h (count_entry e a h);
      data_blocks = λ a h. data_more a _ h (count_entry e a h);
      clean = clean_entry e;
    };
    given = count_entry e;
    others =
        λ m h k l. write_ne cleared n m slot.1 (node_ne m l) ∙ write_ne s.disk d m zero_block k;
  }

  zero_no_node : node_count (n ∷ ns) 0 ≡ 0
  zero_no_node = node_count-zero s.disk n (n ∷ ns) (refl, f.chain.1, f.chain.2)

  list_head : (a : ℕ) → free_count as_head.disk (n ∷ ns) a ≡ free_count s.disk (n ∷ ns) a
  list_head a =
      free_count-write with_super d (set_word zero_block 0 n) (n ∷ ns) a no_node
      ∙ free_count-write cleared 0 (super_image (record s { disk = cleared }) d) (n ∷ ns) a
          zero_no_node
      ∙ free_count-write s.disk d zero_block (n ∷ ns) a no_node

  -- The entries of the new head.
  new_entries :
      (j : ℕ) → 1 ≤ j → j < 1 + (dblocks_per_block - 1) → word (set_word zero_block 0 n) j ≡ 0
  new_entries j l u = word-set_ne zero_block 0 j n (omega arith) ∙ word-zero j

  elsewhere : (m : ℕ) → m ≢ 0 → m ≢ d → as_head.disk m ≡ s.disk m
  elsewhere m h k =
      write_ne with_super d m (set_word zero_block 0 n) k
      ∙ write_ne cleared 0 m (super_image (record s { disk = cleared }) d) h
      ∙ write_ne s.disk d m zero_block k

  count_head :
      (a : ℕ)
      → a ≢ 0
      → free_count as_head.disk (d ∷ n ∷ ns) a ≡ is a d + free_count s.disk (n ∷ ns) a
  count_head a h =
      rw
        (
          free_count-cons as_head.disk d (n ∷ ns) a,
          list_head a,
          write_self with_super d (set_word zero_block 0 n),
        )
        (omega
          (arith, listed-zero (dblocks_per_block - 1) 1 (set_word zero_block 0 n) a h new_entries))

  clean_head :
      (a : ℕ)
      → a ≢ 0
      → 0 < free_count as_head.disk (d ∷ n ∷ ns) a
      → node_count (d ∷ n ∷ ns) a ≡ 0
      → IsZero (as_head.disk a)
  unfolding node_count
  clean_head a h k free =
      let apart : a ≢ d = ground arith in
      rw (elsewhere a h apart) (f.clean a h (ground (arith, count_head a h)) (omega (arith, free)))

  IsChain-head : IsChain as_head.disk d (d ∷ n ∷ ns)
  IsChain-head = (
    refl,
    (λ z. absurd (omega (arith, in_data.0, z))),
    rw
        (
          write_self with_super d (set_word zero_block 0 n),
          word-set_self zero_block 0 n (omega (arith, head-IsDataBlock f)),
        )
        (IsChain-write with_super d (set_word zero_block 0 n) n (n ∷ ns) no_node (
          IsChain-write cleared 0 (super_image (record s { disk = cleared }) d) n (n ∷ ns)
            zero_no_node
            (IsChain-write s.disk d zero_block n (n ∷ ns) no_node (refl, f.chain.1, f.chain.2)))),
  )

  head-Freed : slot.0 ≡ false → Freed s (n ∷ ns) d as_head (d ∷ n ∷ ns)
  head-Freed e = record {
    order = record {
      chain = IsChain-head;
      once = λ a h. once_more a _ h (count_head a h);
      data_blocks = λ a h. data_more a _ h (count_head a h);
      clean = clean_head;
    };
    given = count_head;
    others = λ m h k l. elsewhere m h k;
  }

-- With a free list that is in order and not empty, `free_dblock` of a data block that is not free
-- succeeds: the block is free once, every other block is as often free as before, and the list
-- stays in order; but for the super block and the block itself, no block that was not a node of
-- the list changes.
pub free_dblock-Freed :
    (s : Fs) (ns : List ℕ) (d : ℕ)
    → FreeList s ns
    → s.super_block.free_list_head ≢ 0
    → IsDataBlock d
    → free_count s.disk ns d ≡ 0
    → (s' : Fs) × (ns' : List ℕ) × (free_dblock d s ≡ ok true s') × Freed s ns d s' ns'
free_dblock-Freed s [] d f h i u = absurd (h f.chain)
free_dblock-Freed s (n ∷ ns) d f h i u = elim (Bool-cases (slot s n ns d f i u).0) [
  | inl e ↦
      (as_entry s n ns d f i u, n ∷ ns, run_entry s n ns d f i u e, entry-Freed s n ns d f i u e)
  | inr e ↦
      (as_head s n ns d f i u, d ∷ n ∷ ns, run_head s n ns d f i u e, head-Freed s n ns d f i u e)
]
