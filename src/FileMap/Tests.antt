-- ===== src/FileMap/Tests.antt =====
-- Files that grow by a block, and one whose block is replaced.
use file_system_fuse.Base.{ℕ, ◌-◌, ◌/◌, ◌≢◌, ◌∙◌, ap, false, ◌≡◌, refl, true, [], ◌∷◌, arith}
use file_system_fuse.Bytes.{Block, word, set_word, zero_block}
use file_system_fuse.Bytes.Words.{word-set_self}
use file_system_fuse.Disk.Laws.{write_self}
use file_system_fuse.FileMap.Double.{single_of, InDouble, write_dblock_to_inode-double}
use file_system_fuse.Fs.{Fs, ok, write}
use file_system_fuse.Inode.{Inode}
use file_system_fuse.FileMap.{
  single_end, single_count, add_dblock_to_inode, write_dblock_to_inode, fblock_num_to_dblock_num,
}
use file_system_fuse.FileMap.Add.{Extended, Room, in_single, add_dblock_to_inode-Extended}

abbrev zeros : Fs
zeros = record {
  disk = λ _. zero_block;
  super_block = record {
    inode_count = 53_760;
    latest_inum = 3;
    inodes_per_block = 21;
    free_list_head = 2_561;
  };
}

-- A file with all its direct blocks and one more.
abbrev eleven : Inode
eleven = record {
  direct_blocks =
      2_600 ∷ 2_601 ∷ 2_602 ∷ 2_603 ∷ 2_604 ∷ 2_605 ∷ 2_606 ∷ 2_607 ∷ 2_608 ∷ 2_609 ∷ [];
  single_indirect = 2_620;
  double_indirect = 0;
  triple_indirect = 0;
  link_count = 1;
  file_size = 45_000;
  num_blocks = 11;
  allocated = false;
  user_id = 0;
  group_id = 0;
  mode = 0o100664;
  access_time = 0;
  creation_time = 0;
  modification_time = 0;
  status_change_time = 0;
}

eleven-Room : Room eleven zeros
eleven-Room = in_single (omega arith) (omega arith) (omega arith)

add_dblock_to_inode-Extended_example :
    (new : Inode) × (s' : Fs) × (add_dblock_to_inode eleven 2_700 zeros ≡ ok (true, new) s')
    × Extended eleven 2_700 zeros new s'
add_dblock_to_inode-Extended_example =
    add_dblock_to_inode-Extended eleven 2_700 zeros refl (omega arith) eleven-Room

-- A file of 600 blocks, whose double indirect block has the single indirect block 2630 first.
abbrev large : Inode
large = record eleven { double_indirect = 2_621; num_blocks = 600 }

abbrev mapped : Fs
mapped = record zeros { disk = write (λ _. zero_block) 2_621 (set_word zero_block 0 2_630) }

first_single_of : single_of large 530 mapped ≡ 2_630
first_single_of =
    ap (λ (b : Block). word b 0) (write_self (λ _. zero_block) 2_621 (set_word zero_block 0 2_630))
    ∙ word-set_self zero_block 0 2_630 (omega arith)

large-InDouble : InDouble large 530 mapped
large-InDouble = record {
  low = omega arith;
  high = omega arith;
  inside = omega arith;
  big = omega arith;
  outer = omega arith;
  inner = omega (arith, first_single_of);
  apart = omega (arith, first_single_of);
}

write_dblock_to_inode-double_example :
    (s' : Fs) × (write_dblock_to_inode large 530 2_700 mapped ≡ ok (true, large) s')
    × (fblock_num_to_dblock_num large 530 s' ≡ ok 2_700 s')
    × ((j : ℕ)
        → InDouble large j mapped
        → j ≢ 530
        → ((j - single_end) / single_count ≢ (530 - single_end) / single_count
            → single_of large j mapped ≢ single_of large 530 mapped)
        → (v : ℕ) × (fblock_num_to_dblock_num large j mapped ≡ ok v mapped)
          × (fblock_num_to_dblock_num large j s' ≡ ok v s'))
write_dblock_to_inode-double_example =
    write_dblock_to_inode-double large 530 2_700 mapped large-InDouble (omega arith)
