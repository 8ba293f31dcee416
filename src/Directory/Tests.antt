-- ===== src/Directory/Tests.antt =====
-- A directory with one entry, and a second one placed in it.
use file_system_fuse.Base.{◌≡◌, refl, [], ◌∷◌, true, arith}
use file_system_fuse.Base.Ssize.{slt}
use file_system_fuse.Bytes.{Block, zero_block, put, load, store}
use file_system_fuse.Fs.{Fs, ok}
use file_system_fuse.Inode.{Inode}
use file_system_fuse.FileMap.{fblock_num_to_dblock_num}
use file_system_fuse.Directory.{put_chars, put_record, find_file}
use file_system_fuse.Directory.Records.{Entry, IsRecord, chars}
use file_system_fuse.Directory.Find.{IsListing, lookup_all, find_file_lem}

-- The root directory's first entry: itself, with the whole block.
abbrev pub dot : Entry
dot = record { inum = 2; size = 4_096; name = b'.' ∷ [] }

abbrev pub listing : Block
listing = put_record zero_block 0 2 4_096 (b'.' ∷ [])

pub dot-IsRecord : IsRecord listing 0 dot
unfolding put_record put_chars put store load chars
dot-IsRecord = record {
  inum = refl;
  size = refl;
  name_length = refl;
  name = refl;
  room = omega arith;
  within = omega arith;
}

abbrev disk_of_one : Fs
disk_of_one = record {
  disk = λ _. listing;
  super_block = record {
    inode_count = 53_760;
    latest_inum = 3;
    inodes_per_block = 21;
    free_list_head = 2_561;
  };
}

abbrev pub root : Inode
root = record {
  direct_blocks = 2_600 ∷ 0 ∷ 0 ∷ 0 ∷ 0 ∷ 0 ∷ 0 ∷ 0 ∷ 0 ∷ 0 ∷ [];
  single_indirect = 0;
  double_indirect = 0;
  triple_indirect = 0;
  link_count = 2;
  file_size = 4_096;
  num_blocks = 1;
  allocated = true;
  user_id = 0;
  group_id = 0;
  mode = 0o040775;
  access_time = 0;
  creation_time = 0;
  modification_time = 0;
  status_change_time = 0;
}

root-IsListing : IsListing root disk_of_one 0 ((2_600, dot ∷ []) ∷ [])
unfolding fblock_num_to_dblock_num slt
root-IsListing = (refl, omega arith, (dot-IsRecord, refl), tt)

find_file_lem_example :
    find_file (b'.' ∷ []) root disk_of_one
    ≡ ok (lookup_all (b'.' ∷ []) disk_of_one 0 ((2_600, dot ∷ []) ∷ [])) disk_of_one
find_file_lem_example =
    find_file_lem (b'.' ∷ []) root disk_of_one ((2_600, dot ∷ []) ∷ []) refl refl (omega arith)
      root-IsListing
