-- ===== src/FileMap/Add.antt =====
-- After `add_dblock_to_inode` the new block is found behind the others, which are found as before.
use file_system_fuse.Base.{
  ℕ, ◌+◌, ◌-◌, ◌<◌, ◌≤◌, ◌^◌, ◌≡◌, ◌≢◌, ◌∙◌, true, inl, inr, List, arith, ltb, length, set,
  Bool-cases, get_elem?-some, get_elem?-set_self, get_elem?-set_ne, ap,
}
use file_system_fuse.Base.Ssize.{slt-ltb, add_ssize}
use file_system_fuse.Bytes.{Block, word, set_word}
use file_system_fuse.Bytes.Words.{word-set_self, word-set_ne}
use file_system_fuse.Fs.{Fs, ok}
use file_system_fuse.Disk.Laws.{write_self}
use file_system_fuse.FreeList.{create_new_dblock}
use file_system_fuse.FreeList.Chain.{FreeList, IsDataBlock}
use file_system_fuse.FreeList.Create.{Allocated, create_new_dblock-Allocated}
use file_system_fuse.Inode.{Inode, direct_b_count}
use file_system_fuse.FileMap.{
  single_end, set_direct, add_single, with_fresh, fblock_num_to_dblock_num, add_dblock_to_inode,
}
use file_system_fuse.FileMap.Lookup.{with_address, write_address-in, lookup_direct, lookup_single}

-- The inode `new` in `s'` has the block `d` behind the blocks that `inode` has in `s`.
pub record Extended (inode : Inode) (d : ℕ) (s : Fs) (new : Inode) (s' : Fs) : Type 0 where
  pub count : new.num_blocks ≡ inode.num_blocks + 1
  pub last : fblock_num_to_dblock_num new inode.num_blocks s' ≡ ok d s'
  pub before :
      (k : ℕ)
      → k < inode.num_blocks
      → (v : ℕ) × (fblock_num_to_dblock_num inode k s ≡ ok v s)
        × (fblock_num_to_dblock_num new k s' ≡ ok v s')

-- Where the next block of the file goes: to a direct block; to the first place of a single indirect
-- block, for which a block is free; or to a later place of that block.
pub data Room (inode : Inode) (s : Fs) : Type 0 where
  in_direct : inode.num_blocks < direct_b_count → Room inode s
  first_single :
      (ns : List ℕ)
      → inode.num_blocks ≡ direct_b_count
      → FreeList s ns
      → s.super_block.free_list_head ≢ 0
      → Room inode s
  in_single :
      direct_b_count < inode.num_blocks
      → inode.num_blocks < single_end
      → IsDataBlock inode.single_indirect
      → Room inode s

module _ (inode : Inode) (d : ℕ) (s : Fs)
    (shape : length inode.direct_blocks ≡ direct_b_count) where
  abbrev pub new_direct : Inode
  new_direct = record inode {
    direct_blocks = set inode.direct_blocks inode.num_blocks d;
    num_blocks = add_ssize inode.num_blocks 1;
  }

  pub direct_run :
      inode.num_blocks < direct_b_count → add_dblock_to_inode inode d s ≡ ok (true, new_direct) s
  unfolding add_dblock_to_inode set_direct
  direct_run h = ground (arith, slt-ltb inode.num_blocks direct_b_count, shape)

  pub direct-Extended : inode.num_blocks < direct_b_count → Extended inode d s new_direct s
  direct-Extended h = record {
    count = omega arith;
    last =
        lookup_direct new_direct inode.num_blocks s (omega arith) (omega arith) d h
          (get_elem?-set_self inode.direct_blocks inode.num_blocks d (omega (arith, shape)));
    before = λ k l.
        let (v, e) = get_elem?-some inode.direct_blocks k (omega (arith, shape)) in
        (
          v,
          lookup_direct inode k s (omega arith) (omega arith) v (omega arith) e,
          lookup_direct new_direct k s (omega arith) (omega arith) v (omega arith)
              (get_elem?-set_ne inode.direct_blocks inode.num_blocks k d (omega arith) ∙ e),
        );
  }

  -- In the range of the single indirect block, which is the block `single` of the state `t`.
  module _ (fits : d < 2 ^ 64) (single : ℕ) (t : Fs) (low : direct_b_count ≤ inode.num_blocks)
      (high : inode.num_blocks < single_end) (in_data : IsDataBlock single) where
    abbrev new_single : Inode
    new_single = record inode {
      single_indirect = single;
      num_blocks = add_ssize inode.num_blocks 1;
    }

    abbrev ended : Fs
    ended = with_address single (inode.num_blocks - direct_b_count) d t

    single_run :
        add_single (record inode { single_indirect = single }) inode.num_blocks d t
        ≡ ok (true, new_single) ended
    unfolding add_single
    single_run = rw (write_address-in single (inode.num_blocks - direct_b_count) d t in_data)

    last_single : fblock_num_to_dblock_num new_single inode.num_blocks ended ≡ ok d ended
    last_single =
        lookup_single new_single inode.num_blocks ended (omega arith) (omega arith) low high in_data
        ∙ ap (λ v. ok v ended)
            (ap (λ (b : Block). word b (inode.num_blocks - direct_b_count))
                (write_self t.disk single
                  (set_word (t.disk single) (inode.num_blocks - direct_b_count) d))
              ∙ word-set_self (t.disk single) (inode.num_blocks - direct_b_count) d fits)

    -- A direct block.
    before_direct :
        (k : ℕ)
        → k < direct_b_count
        → (v : ℕ) × (fblock_num_to_dblock_num inode k s ≡ ok v s)
          × (fblock_num_to_dblock_num new_single k ended ≡ ok v ended)
    before_direct k h =
        let (v, e) = get_elem?-some inode.direct_blocks k (omega (arith, shape)) in
        (
          v,
          lookup_direct inode k s (omega arith) (omega arith) v h e,
          lookup_direct new_single k ended (omega arith) (omega arith) v h e,
        )

    -- A block that the single indirect block had before.
    before_single :
        (k : ℕ)
        → direct_b_count ≤ k
        → k < inode.num_blocks
        → fblock_num_to_dblock_num new_single k ended
          ≡ ok (word (t.disk single) (k - direct_b_count)) ended
    before_single k l h =
        lookup_single new_single k ended (omega arith) (omega arith) l (omega arith) in_data
        ∙ ap (λ v. ok v ended)
            (ap (λ (b : Block). word b (k - direct_b_count))
                (write_self t.disk single
                  (set_word (t.disk single) (inode.num_blocks - direct_b_count) d))
              ∙ word-set_ne (t.disk single) (inode.num_blocks - direct_b_count) (k - direct_b_count)
                  d (omega arith))

  first-Extended :
      (fits : d < 2 ^ 64) (ns ns' : List ℕ) (z : ℕ) (t : Fs)
      → inode.num_blocks ≡ direct_b_count
      → create_new_dblock s ≡ ok z t
      → Allocated s ns z t ns'
      → (new : Inode) × (s' : Fs) × (add_dblock_to_inode inode d s ≡ ok (true, new) s')
        × Extended inode d s new s'
  unfolding add_dblock_to_inode with_fresh
  first-Extended fits ns ns' z t e run al =
      let low : direct_b_count ≤ inode.num_blocks = omega arith in
      let high : inode.num_blocks < single_end = omega arith in
      (
        new_single fits z t low high al.data_block,
        ended fits z t low high al.data_block,
        ground (
          arith,
          slt-ltb inode.num_blocks direct_b_count,
          slt-ltb inode.num_blocks single_end,
          run,
          al.data_block,
          single_run fits z t low high al.data_block,
        ),
        record {
          count = omega arith;
          last = last_single fits z t low high al.data_block;
          before = λ k l. before_direct fits z t low high al.data_block k (omega arith);
        },
      )

  single-Extended :
      (fits : d < 2 ^ 64)
      → direct_b_count < inode.num_blocks
      → inode.num_blocks < single_end
      → IsDataBlock inode.single_indirect
      → (new : Inode) × (s' : Fs) × (add_dblock_to_inode inode d s ≡ ok (true, new) s')
        × Extended inode d s new s'
  unfolding add_dblock_to_inode with_fresh
  single-Extended fits above high in_data =
      let low : direct_b_count ≤ inode.num_blocks = omega arith in
      let single : ℕ = inode.single_indirect in
      (
        new_single fits single s low high in_data,
        ended fits single s low high in_data,
        ground (
          arith,
          slt-ltb inode.num_blocks direct_b_count,
          slt-ltb inode.num_blocks single_end,
          single_run fits single s low high in_data,
        ),
        record {
          count = omega arith;
          last = last_single fits single s low high in_data;
          before = λ k l. elim (Bool-cases (ltb k direct_b_count)) [
            | inl h ↦ before_direct fits single s low high in_data k (ground arith)
            | inr h ↦ (
              word (s.disk single) (k - direct_b_count),
              lookup_single inode k s (omega arith) (omega arith) (ground arith) (omega arith)
                  in_data,
              before_single fits single s low high in_data k (ground arith) l,
            )
          ];
        },
      )

-- When there is room for it in the direct blocks or in the single indirect block, which is made if
-- need be, `add_dblock_to_inode` succeeds: the file has one block more, the new block is found at
-- the place behind the others, and each other is found where it was.
pub add_dblock_to_inode-Extended :
    (inode : Inode) (d : ℕ) (s : Fs)
    → length inode.direct_blocks ≡ direct_b_count
    → d < 2 ^ 64
    → Room inode s
    → (new : Inode) × (s' : Fs) × (add_dblock_to_inode inode d s ≡ ok (true, new) s')
      × Extended inode d s new s'
add_dblock_to_inode-Extended inode d s shape fits (in_direct h) =
    (new_direct inode d s shape, s, direct_run inode d s shape h, direct-Extended inode d s shape h)
add_dblock_to_inode-Extended inode d s shape fits (first_single ns e f h) =
    let (z, t, ns', run, al) = create_new_dblock-Allocated s ns f h in
    first-Extended inode d s shape fits ns ns' z t e run al
add_dblock_to_inode-Extended inode d s shape fits (in_single above high in_data) =
    single-Extended inode d s shape fits above high in_data
