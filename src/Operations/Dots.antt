-- ===== src/Operations/Dots.antt =====
-- The two entries that a new directory gets.
use file_system_fuse.Base.{
  Bool-cases, ==→eq, ==→ne, ℕ, ◌+◌, ◌-◌, ◌^◌, ◌<◌, ◌≤◌, ◌≡◌, ◌≢◌, ◌∙◌, refl, sym, subst, true,
  false, List, [], ◌∷◌, length, set, some, inl, inr, arith, ◌==◌,
}
use file_system_fuse.Base.Ssize.{slt, sle, add_ssize, sub_ssize}
use file_system_fuse.Bytes.{Block, zero_block}
use file_system_fuse.Fs.{Fs, ok, write}
use file_system_fuse.Disk.{block_size}
use file_system_fuse.Disk.Laws.{write_self, write_ne}
use file_system_fuse.FreeList.{inode_b_count}
use file_system_fuse.FreeList.Chain.{IsDataBlock, FreeList, node_count, node-le-free}
use file_system_fuse.FreeList.Blocks.{read_dblock-in, write_dblock-in}
use file_system_fuse.FreeList.Create.{Allocated, create_new_dblock-Allocated}
use file_system_fuse.Inode.{Inode, direct_b_count}
use file_system_fuse.FileMap.{fblock_num_to_dblock_num}
use file_system_fuse.FileMap.Add.{direct_run, direct-Extended}
use file_system_fuse.Directory.{
  is_dir, name_at, placed, place_entry, put_record, add_to_last, add_in_new, add_new_entry,
}
use file_system_fuse.Directory.Records.{Entry, IsRecords}
use file_system_fuse.Directory.Write.{put_record-IsRecord}
use file_system_fuse.Directory.Place.{insert, place_entry_lem}
use file_system_fuse.Directory.Added.{some-value, none-some}
use file_system_fuse.State.{done}
use file_system_fuse.World.{World}
use file_system_fuse.Operations.{dot, dot_dot, add_dots}

-- The entries "." and ".." of a directory with one block, both for the inode `n`.
abbrev pub dots : ℕ → List Entry
dots n =
    record { inum = n; size = name_at + 1; name = dot }
    ∷ record { inum = n; size = block_size - (name_at + 1); name = dot_dot }
    ∷ []

abbrev only : ℕ → List Entry
only n = record { inum = n; size = block_size; name = dot } ∷ []

-- The block with the first entry only.
abbrev first_block : ℕ → Block
first_block n = put_record zero_block 0 n block_size dot

first_block-IsRecords : (n : ℕ) → n < 2 ^ 64 → IsRecords (first_block n) 0 (only n)
first_block-IsRecords n h = (
  put_record-IsRecord zero_block 0 n block_size dot h (omega arith) (omega arith) (omega arith, tt)
      (omega arith) (omega arith),
  omega arith,
)

-- The second entry is split off the first.
place_dot_dot :
    (n : ℕ) (s : Fs)
    → n < 2 ^ 64
    → (c : Block) × (place_entry (block_size + 1) 0 n dot_dot (first_block n) s ≡ ok (placed c) s)
      × IsRecords c 0 (dots n)
unfolding insert
place_dot_dot n s h =
    let split : insert n dot_dot (only n) ≡ some (dots n) = refl in
    elim (place_entry_lem n dot_dot s h (omega arith) (omega arith, (omega arith, tt))
      (block_size + 1) 0 (first_block n) (only n) (first_block-IsRecords n h) (omega arith)) [
        | inl (e, run) ↦ absurd (none-some (sym e ∙ split))
        | inr (es', c, e, run, records, kept) ↦
            (c, run, subst (λ es. IsRecords c 0 es) (some-value (sym e ∙ split)) records)
      ]

-- A block of inodes is no node of the free list.
no_node :
    (s : Fs) (ns : List ℕ)
    → FreeList s ns
    → (m : ℕ) → 0 < m
    → m ≤ inode_b_count
    → node_count ns m ≡ 0
no_node s ns f m low high = elim (Bool-cases (node_count ns m == 0)) [
  | inl e ↦ ==→eq _ _ e
  | inr e ↦ absurd (
      omega (
        arith,
        ==→ne _ _ e,
        high,
        f.data_blocks m (omega (arith, low)) (omega (arith, ==→ne _ _ e, node-le-free s.disk ns m)),
      ))
]

-- A directory without blocks.
module _ (n : ℕ) (fits : n < 2 ^ 64) (inode : Inode) (dir : is_dir inode.mode ≡ true)
    (empty : inode.num_blocks ≡ 0) (shape : length inode.direct_blocks ≡ direct_b_count) where
  -- It with the block `d`.
  abbrev pub with_dots : ℕ → Inode
  with_dots d = record inode {
    direct_blocks = set inode.direct_blocks inode.num_blocks d;
    num_blocks = add_ssize inode.num_blocks 1;
    file_size = add_ssize inode.file_size block_size;
  }

  few : inode.num_blocks < direct_b_count
  few = omega (arith, empty)

  none_yet : (inode.num_blocks == 0) ≡ true
  none_yet = ground (arith, empty)

  -- The first entry: a block is taken for it.
  add_dot :
      (s : Fs) (ns : List ℕ)
      → FreeList s ns
      → s.super_block.free_list_head ≢ 0
      → (d : ℕ) × (t : Fs) × (ns' : List ℕ) × Allocated s ns d t ns'
        × (add_new_entry inode n dot s
            ≡ ok (true, with_dots d) (record t { disk = write t.disk d (first_block n) }))
  unfolding add_new_entry add_to_last add_in_new slt
  add_dot s ns f h =
      let (d, t, ns', run, al) = create_new_dblock-Allocated s ns f h in
      let positive : sle d 0 ≡ false = unfold sle in ground (arith, al.data_block) in
      (
        d,
        t,
        ns',
        al,
        rw
            (
              dir,
              none_yet,
              run,
              positive,
              write_dblock-in d (first_block n) t al.data_block,
              direct_run inode d (record t { disk = write t.disk d (first_block n) }) shape few,
            )
            refl,
      )

  pub lookup_with_dots :
      (d : ℕ) (t : Fs) → fblock_num_to_dblock_num (with_dots d) inode.num_blocks t ≡ ok d t
  unfolding fblock_num_to_dblock_num
  lookup_with_dots d t = (direct-Extended inode d t shape few).last

  -- The second entry, in the same block.
  add_dot_dot :
      (d : ℕ) (t : Fs)
      → IsDataBlock d
      → t.disk d ≡ first_block n
      → (c : Block) × IsRecords c 0 (dots n)
        × (add_new_entry (with_dots d) n dot_dot t
            ≡ ok (true, with_dots d) (record t { disk = write t.disk d c }))
  unfolding add_new_entry add_to_last slt
  add_dot_dot d t in_data content =
      let (c, run, records) = place_dot_dot n t fits in
      let positive : sle d 0 ≡ false = unfold sle in ground (arith, in_data) in
      let some_block : (add_ssize inode.num_blocks 1 == 0) ≡ false = ground (arith, empty) in
      let last : sub_ssize (add_ssize inode.num_blocks 1) 1 ≡ inode.num_blocks =
        omega (arith, empty) in
      (
        c,
        records,
        rw
            (
              dir,
              some_block,
              last,
              lookup_with_dots d t,
              positive,
              read_dblock-in d t in_data,
              content,
              run,
              write_dblock-in d c t in_data,
            )
            refl,
      )

  -- An empty directory gets one block, taken from the free list, with the entries "." and ".."; the
  -- constants of the super block and the blocks of inodes stay as they are.
  pub add_dots_lem :
      (w : World) (ns : List ℕ)
      → FreeList w.fs ns
      → w.fs.super_block.free_list_head ≢ 0
      → (d : ℕ) × (s' : Fs) × (add_dots n inode w ≡ done (true, with_dots d) (record w { fs = s' }))
        × IsDataBlock d
        × IsRecords (s'.disk d) 0 (dots n)
        × (s'.super_block.inodes_per_block ≡ w.fs.super_block.inodes_per_block)
        × (s'.super_block.inode_count ≡ w.fs.super_block.inode_count)
        × ((m : ℕ) → 0 < m → m ≤ inode_b_count → s'.disk m ≡ w.fs.disk m)
  unfolding add_dots
  add_dots_lem w ns f h =
      let (d, t, ns', al, run) = add_dot w.fs ns f h in
      let u : Fs = record t { disk = write t.disk d (first_block n) } in
      let (c, records, run') =
        add_dot_dot d u al.data_block (write_self t.disk d (first_block n)) in
      (
        d,
        record u { disk = write u.disk d c },
        rw (run, run') refl,
        al.data_block,
        rw (write_self u.disk d c) records,
        al.per_block,
        al.inode_count,
        λ m low high.
            write_ne u.disk d m c (omega (arith, high, al.data_block))
            ∙ write_ne t.disk d m (first_block n) (omega (arith, high, al.data_block))
            ∙ al.others m (omega (arith, low)) (no_node w.fs ns f m low high),
      )
