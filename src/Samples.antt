-- ===== src/Samples.antt =====
-- Small states for the tests: a file, a disk of zeros, and a cache with one path.
use file_system_fuse.Base.{ℕ, ◌+◌, ◌≡◌, refl, true, some, none, ◌==◌, if◌then◌else◌, arith, [], ◌∷◌}
use file_system_fuse.Base.Ssize.{slt}
use file_system_fuse.Bytes.{zero_block}
use file_system_fuse.Fs.{Fs}
use file_system_fuse.FilePath.{Chars, same}
use file_system_fuse.Base.{zero, suc, ◌+◌, ◌<◌}
use file_system_fuse.Inode.Layout.{Fits}
use file_system_fuse.Inode.Store.{IsGeometry, inode_at, with_inode, inode_at_self}
use file_system_fuse.FileMap.{fblock_num_to_dblock_num}
use file_system_fuse.FileMap.Lookup.{lookup_direct}
use file_system_fuse.Transfer.Content.{IsMapped}
use file_system_fuse.Fs.{ok}
use file_system_fuse.Inode.{Inode, to_words}
use file_system_fuse.Inode.Layout.{Fits}
use file_system_fuse.Inode.Store.{IsGeometry}
use file_system_fuse.State.{done}
use file_system_fuse.Cache.{
  find_key, hash_index, find_node, load_node, move_to_front, Cache, get_cache,
}
use file_system_fuse.World.{World}
use file_system_fuse.Resolve.{get_inode_num_from_path}

abbrev pub file : Inode
file = record {
  direct_blocks = 2_600 ∷ 2_601 ∷ 0 ∷ 0 ∷ 0 ∷ 0 ∷ 0 ∷ 0 ∷ 0 ∷ 0 ∷ [];
  single_indirect = 0;
  double_indirect = 0;
  triple_indirect = 0;
  link_count = 1;
  file_size = 6_000;
  num_blocks = 2;
  allocated = true;
  user_id = 0;
  group_id = 0;
  mode = 0o100664;
  access_time = 5;
  creation_time = 6;
  modification_time = 7;
  status_change_time = 8;
}

pub file-Fits : Fits file
unfolding to_words
file-Fits = record { directs = refl; words = omega arith; mode = omega arith }

abbrev pub zeros : Fs
zeros = record {
  disk = λ _. zero_block;
  super_block = record {
    inode_count = 53_760;
    latest_inum = 3;
    inodes_per_block = 21;
    free_list_head = 2_561;
  };
}

pub zeros-IsGeometry : IsGeometry zeros.super_block
zeros-IsGeometry = record { per_block = refl; count = refl }

abbrev pub name : Chars
name = b'/' ∷ b'f' ∷ []

-- The cache holds the path.
abbrev pub cache : Cache
cache = record {
  node = λ p. if p == 1 then some (record { key = name; value = 5; prev = 0; next = 0 }) else none;
  fresh = 2;
  head = 1;
  tail = 1;
  size = 1;
  capacity = 10;
  map = λ _. 1;
}

abbrev pub world_with : Fs → ℕ → World
world_with s calls = record { fs = s; cache = cache; now = λ i. 1_000 + i; calls = calls }

pub resolved :
    (s : Fs) (calls : ℕ)
    → get_inode_num_from_path 1 name (world_with s calls) ≡ done 5 (world_with s calls)
unfolding get_inode_num_from_path get_cache find_key hash_index find_node load_node move_to_front
    same slt
resolved s calls = refl

-- The disk has the file as inode 5.
abbrev pub start : World
start = world_with (with_inode zeros 5 file) 0

pub start-IsGeometry : IsGeometry start.fs.super_block
unfolding with_inode
start-IsGeometry = record { per_block = refl; count = refl }

pub start_inode : inode_at start.fs 5 ≡ file
start_inode = inode_at_self zeros 5 file zeros-IsGeometry (omega arith) file-Fits

lookup_file : (s : Fs) (k : ℕ) → k < 2 → fblock_num_to_dblock_num file k s ≡ ok (2_600 + k) s
lookup_file s zero l = lookup_direct file 0 s (omega arith) (omega arith) 2_600 (omega arith) refl
lookup_file s (suc zero) l =
    lookup_direct file 1 s (omega arith) (omega arith) 2_601 (omega arith) refl
lookup_file s (suc (suc k)) l = ground (arith, l)

pub start-IsMapped : IsMapped (inode_at start.fs 5) start.fs 2 (λ k. 2_600 + k)
start-IsMapped = record {
  data_block = λ k l. (omega (arith, l), omega (arith, l));
  once = λ j k l m h. omega (arith, h);
  lookup = λ s o k l. rw start_inode (lookup_file s k l);
}

-- The inode of the file at the start is `file`.
pub start-Fits : Fits (inode_at start.fs 5)
start-Fits = rw start_inode file-Fits
