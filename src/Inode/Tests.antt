-- ===== src/Inode/Tests.antt =====
-- The theorems about inodes at small disks.
use file_system_fuse.Base.{ℕ, ◌<◌, ◌≡◌, ◌≢◌, ◌⊎◌, refl, true, false, some, [], ◌∷◌, arith}
use file_system_fuse.Bytes.{zero_block}
use file_system_fuse.Bytes.{load, load_words}
use file_system_fuse.Fs.{SuperBlock, Fs, ok}
use file_system_fuse.FreeList.{inode_b_count}
use file_system_fuse.Inode.{
  Inode, to_words, from_words, load_inode, read_inode, write_inode, create_new_inode,
}
use file_system_fuse.Inode.Layout.{Fits}
use file_system_fuse.Inode.Store.{IsGeometry, IsInum, inode_at, read-write_inode}
use file_system_fuse.Inode.Scan.{advance, IsFirstFree}
use file_system_fuse.Base.{ap, subst, ◌∙◌}
use file_system_fuse.Inode.Store.{with_inode, inode_at_self, inode_at_ne, super_with_inode}
use file_system_fuse.Inode.Create.{
  Created, create_new_inode-latest, create_new_inode-first, create_new_inode-Created,
}

abbrev super_at : ℕ → SuperBlock
super_at latest = record {
  inode_count = 53_760;
  latest_inum = latest;
  inodes_per_block = 21;
  free_list_head = 2_561;
}

abbrev zeros : ℕ → Fs
zeros latest = record { disk = λ _. zero_block; super_block = super_at latest }

-- A file with one block.
abbrev sample : Inode
sample = record {
  direct_blocks = 2_600 ∷ 0 ∷ 0 ∷ 0 ∷ 0 ∷ 0 ∷ 0 ∷ 0 ∷ 0 ∷ 0 ∷ [];
  single_indirect = 0;
  double_indirect = 0;
  triple_indirect = 0;
  link_count = 1;
  file_size = 70_000;
  num_blocks = 1;
  allocated = true;
  user_id = 0;
  group_id = 0;
  mode = 0o100664;
  access_time = 5;
  creation_time = 6;
  modification_time = 7;
  status_change_time = 8;
}

sample-Fits : Fits sample
unfolding to_words
sample-Fits = record { directs = refl; words = omega arith; mode = omega arith }

zeros-IsGeometry : (n : ℕ) → IsGeometry (super_at n)
zeros-IsGeometry n = record { per_block = refl; count = refl }

read-write_inode_example :
    (s' : Fs) × (write_inode 44 sample (zeros 3) ≡ ok true s')
    × (read_inode 44 s' ≡ ok (some sample) s')
    × ((m : ℕ)
        → IsInum m
        → m ≢ 44
        → (j : Inode) × (read_inode m (zeros 3) ≡ ok (some j) (zeros 3))
          × (read_inode m s' ≡ ok (some j) s'))
    × ((k : ℕ) → (k ≡ 0) ⊎ (inode_b_count < k) → s'.disk k ≡ zero_block)
    × (s'.super_block ≡ super_at 3)
read-write_inode_example =
    read-write_inode (zeros 3) 44 sample (zeros-IsGeometry 3) (omega arith) sample-Fits

blank_allocated : (inode_at (zeros 3) 3).allocated ≡ false
unfolding inode_at load_inode from_words load_words load
blank_allocated = refl

latest_round : create_new_inode 1 (zeros 3) ≡ ok 3 (advance 1 (zeros 3))
latest_round =
    create_new_inode-latest (zeros 3) (zeros-IsGeometry 3) 0 (omega arith) blank_allocated

-- The inode of the latest number is in use, and the next one is not.
abbrev in_use : Fs
in_use = with_inode (zeros 3) 3 sample

in_use-super : in_use.super_block ≡ super_at 3
in_use-super = super_with_inode (zeros 3) 3 sample (zeros-IsGeometry 3) (omega arith) sample-Fits

in_use-IsGeometry : IsGeometry in_use.super_block
in_use-IsGeometry = rw in_use-super (zeros-IsGeometry 3)

in_use_latest : in_use.super_block.latest_inum ≡ 3
in_use_latest = ap (λ (b : SuperBlock). b.latest_inum) in_use-super

first_in_use : (inode_at in_use 3).allocated ≡ true
first_in_use =
    ap (λ (i : Inode). i.allocated)
      (inode_at_self (zeros 3) 3 sample (zeros-IsGeometry 3) (omega arith) sample-Fits)

blank_next : (inode_at (zeros 3) 4).allocated ≡ false
unfolding inode_at load_inode from_words load_words load
blank_next = refl

next_free : (inode_at in_use 4).allocated ≡ false
next_free =
    ap (λ (i : Inode). i.allocated)
      (inode_at_ne (zeros 3) 3 sample (zeros-IsGeometry 3) (omega arith) sample-Fits 4
        (omega arith))
    ∙ blank_next

second-IsFirstFree : IsFirstFree in_use 1
second-IsFirstFree = record {
  within = omega arith;
  before = λ j l.
      subst (λ n. (inode_at in_use n).allocated ≡ true) (omega (arith, in_use_latest, l))
        first_in_use;
  free =
      subst (λ n. (inode_at in_use n).allocated ≡ false) (omega (arith, in_use_latest)) next_free;
}

create_new_inode-first_example :
    create_new_inode 2 in_use ≡ ok in_use.super_block.latest_inum (advance 2 in_use)
create_new_inode-first_example =
    create_new_inode-first in_use in_use-IsGeometry 1 1 (omega (arith, in_use_latest))
      second-IsFirstFree (omega arith)

create_new_inode-Created_example : Created (zeros 3) 3 (advance 1 (zeros 3))
create_new_inode-Created_example =
    create_new_inode-Created 1 (zeros 3) (advance 1 (zeros 3)) 3 (zeros-IsGeometry 3) (omega arith)
      latest_round

-- Each byte is 1, so each inode is allocated.
abbrev ones : Fs
ones = record { disk = λ _ _. 1; super_block = super_at 3 }

load-ones : (o : ℕ) → load 8 (λ _. 1) o ≡ 0x0101_0101_0101_0101
unfolding load
load-ones o = refl
