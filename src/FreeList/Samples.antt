-- ===== src/FreeList/Samples.antt =====
-- Small free lists for the tests.
use file_system_fuse.Base.{ℕ, ◌-◌, ◌≡◌, ◌≢◌, refl, [], ◌∷◌, arith}
use file_system_fuse.Bytes.{zero_block}
use file_system_fuse.Bytes.Words.{word-zero}
use file_system_fuse.Fs.{SuperBlock, Fs}
use file_system_fuse.FreeList.{dblocks_per_block}
use file_system_fuse.FreeList.Entries.{is, listed-zero}
use file_system_fuse.FreeList.Chain.{entries, free_count, node_count, FreeList}

abbrev pub super_of : ℕ → SuperBlock
super_of head = record {
  inode_count = 53_760;
  latest_inum = 3;
  inodes_per_block = 21;
  free_list_head = head;
}

-- A disk of zeros whose free list is the one node 2561.
abbrev pub one_free : Fs
one_free = record { disk = λ _. zero_block; super_block = super_of 2_561 }

abbrev pub none_free : Fs
none_free = record { disk = λ _. zero_block; super_block = super_of 0 }

no_entries : (a : ℕ) → a ≢ 0 → entries zero_block a ≡ 0
no_entries a h = listed-zero (dblocks_per_block - 1) 1 zero_block a h (λ j l u. word-zero j)

pub one_count : (a : ℕ) → a ≢ 0 → free_count one_free.disk (2_561 ∷ []) a ≡ is a 2_561
unfolding free_count
one_count a h = omega (arith, no_entries a h)

pub one_free-FreeList : FreeList one_free (2_561 ∷ [])
unfolding node_count
one_free-FreeList = record {
  chain = (refl, omega arith, word-zero 0);
  once = λ a h. ground (arith, one_count a h);
  data_blocks = λ a h k. ground (arith, one_count a h);
  clean = λ a h k n i l. word-zero i;
}
