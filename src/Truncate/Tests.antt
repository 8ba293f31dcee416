-- ===== src/Truncate/Tests.antt =====
-- Files that are cut off.
use file_system_fuse.Base.{false, ℕ, ◌<◌, ◌≡◌, ◌∙◌, [], ◌∷◌, arith}
use file_system_fuse.Bytes.{Block, word, set_word, zero_block}
use file_system_fuse.Bytes.Words.{word-zero, word-set_ne, word-set_self}
use file_system_fuse.Fs.{Fs, write, ok}
use file_system_fuse.Disk.Laws.{write_self}
use file_system_fuse.FreeList.{dblocks_per_block}
use file_system_fuse.Inode.{Inode}
use file_system_fuse.Truncate.{remove_dblocks_from_inode}
use file_system_fuse.Truncate.Overrun.{IsAddress, remove_dblocks_from_inode-overruns}
use file_system_fuse.Truncate.{cut_boundary}
use file_system_fuse.Release.{remove_range, remove_single_indirect}
use file_system_fuse.FileMap.{address_at}
use file_system_fuse.Fs.{fault}
use file_system_fuse.Base.{inl}

-- The single indirect block 2620 lists block 2700 as the second.
abbrev addresses : Block
addresses = set_word zero_block 1 2_700

abbrev before : Fs
before = record {
  disk = write (λ _. zero_block) 2_620 addresses;
  super_block = record {
    inode_count = 53_760;
    latest_inum = 3;
    inodes_per_block = 21;
    free_list_head = 2_561;
  };
}

-- A file of the given number of blocks.
abbrev file : ℕ → Inode
file n = record {
  direct_blocks =
      2_600 ∷ 2_601 ∷ 2_602 ∷ 2_603 ∷ 2_604 ∷ 2_605 ∷ 2_606 ∷ 2_607 ∷ 2_608 ∷ 2_609 ∷ [];
  single_indirect = 2_620;
  double_indirect = 2_621;
  triple_indirect = 0;
  link_count = 1;
  file_size = 45_000;
  num_blocks = n;
  allocated = false;
  user_id = 0;
  group_id = 0;
  mode = 0o100664;
  access_time = 0;
  creation_time = 0;
  modification_time = 0;
  status_change_time = 0;
}

-- The double indirect block 2621 lists the single indirect block 2622 first, and no other.
abbrev singles : Block
singles = set_word zero_block 0 2_622

abbrev deep : Fs
deep = record before { disk = write (λ _. zero_block) 2_621 singles }

deep-stored : deep.disk 2_621 ≡ singles
deep-stored = write_self (λ _. zero_block) 2_621 singles

deep_first : word (deep.disk 2_621) 0 ≡ 2_622
deep_first = rw deep-stored (word-set_self zero_block 0 2_622 (omega arith))

deep_rest : (j : ℕ) → 0 < j → j < dblocks_per_block → IsAddress (word (deep.disk 2_621) j)
deep_rest j l u =
    inl (rw deep-stored (word-set_ne zero_block 0 j 2_622 (omega (arith, l)) ∙ word-zero j))

-- 2000 blocks, cut off at 600.
remove_dblocks_from_inode-overruns_example :
    (s₁ : Fs) × (s₂ : Fs) × (cut_boundary 78 (word (deep.disk 2_621) 0) deep ≡ ok tt s₁)
    × (remove_range 511 1 (deep.disk 2_621) remove_single_indirect s₁ ≡ ok tt s₂)
    × (address_at (deep.disk 2_621) dblocks_per_block s₂ ≡ fault)
    × (remove_dblocks_from_inode (file 2_000) 600 deep ≡ fault)
remove_dblocks_from_inode-overruns_example =
    remove_dblocks_from_inode-overruns (file 2_000) 600 deep (omega arith) (omega arith)
      (omega arith) (omega arith) (omega arith) (omega arith) (omega arith)
      (omega (arith, deep_first)) deep_rest
