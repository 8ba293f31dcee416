-- ===== src/Unlink/Tests.antt =====
-- A block with the entries ".", "a" and "b": "a" and "." are removed.
use file_system_fuse.Base.{none, ◌<◌, ◌≡◌, ◌⊎◌, refl, true, List, [], ◌∷◌, arith, some}
use file_system_fuse.Base.Ssize.{minus_one}
use file_system_fuse.Bytes.{Block, zero_block, put, load, store}
use file_system_fuse.FilePath.{same}
use file_system_fuse.Inode.{Inode}
use file_system_fuse.Directory.{put_chars, put_record}
use file_system_fuse.Directory.Records.{Entry, IsRecord, IsRecords, chars}
use file_system_fuse.Directory.Find.{lookup}
use file_system_fuse.Directory.Place.{used}
use file_system_fuse.State.{done, crash}
use file_system_fuse.World.{World}
use file_system_fuse.Unlink.{remove_entry}
use file_system_fuse.Unlink.Merge.{listed, without}
use file_system_fuse.Unlink.Entry.{place_at, with_block, remove_later, remove_first}

abbrev dot : Entry
dot = record { inum = 2; size = 19; name = b'.' ∷ [] }

abbrev a : Entry
a = record { inum = 5; size = 19; name = b'a' ∷ [] }

abbrev b : Entry
b = record { inum = 6; size = 4_058; name = b'b' ∷ [] }

abbrev listing : Block
listing =
    put_record (put_record (put_record zero_block 0 2 19 (b'.' ∷ [])) 19 5 19 (b'a' ∷ [])) 38 6
      4_058 (b'b' ∷ [])

dot-IsRecord : IsRecord listing 0 dot
unfolding put_record put_chars put store load chars
dot-IsRecord = record {
  inum = refl;
  size = refl;
  name_length = refl;
  name = refl;
  room = omega arith;
  within = omega arith;
}

a-IsRecord : IsRecord listing 19 a
unfolding put_record put_chars put store load chars
a-IsRecord = record {
  inum = refl;
  size = refl;
  name_length = refl;
  name = refl;
  room = omega arith;
  within = omega arith;
}

b-IsRecord : IsRecord listing 38 b
unfolding put_record put_chars put store load chars
b-IsRecord = record {
  inum = refl;
  size = refl;
  name_length = refl;
  name = refl;
  room = omega arith;
  within = omega arith;
}

abbrev world : World
world = record {
  fs = record {
    disk = λ _. listing;
    super_block = record {
      inode_count = 53_760;
      latest_inum = 7;
      inodes_per_block = 21;
      free_list_head = 2_561;
    };
  };
  cache = record {
    node = λ _. none;
    fresh = 1;
    head = 0;
    tail = 0;
    size = 0;
    capacity = 10;
    map = λ _. 0;
  };
  now = λ i. i;
  calls = 0;
}

abbrev root : Inode
root = record {
  direct_blocks = 2_600 ∷ 0 ∷ 0 ∷ 0 ∷ 0 ∷ 0 ∷ 0 ∷ 0 ∷ 0 ∷ 0 ∷ [];
  single_indirect = 0;
  double_indirect = 0;
  triple_indirect = 0;
  link_count = 2;
  file_size = 4_096;
  num_blocks = 1;
  allocated = true;
  user_id = 0;
  group_id = 0;
  mode = 0o040775;
  access_time = 0;
  creation_time = 0;
  modification_time = 0;
  status_change_time = 0;
}

remove_later_example :
    (c : Block) × (es' : List Entry) × (remove_entry root (place_at world.fs 2_600 0 19 0) world
      ≡ done (some root) (with_block world 2_600 c))
    × IsRecords c 0 es'
    × (listed es' ≡ without (b'a' ∷ []) (listed (dot ∷ a ∷ b ∷ [])))
unfolding lookup same
remove_later_example =
    remove_later world root 2_600 0 (omega arith) (b'a' ∷ []) dot (a ∷ b ∷ []) dot-IsRecord
      (a-IsRecord, (b-IsRecord, refl)) 19 0 refl refl

remove_first_example :
    ((c : Block) × (es' : List Entry) × (remove_entry root
          (place_at world.fs 2_600 0 0 minus_one)
          world
        ≡ done (some root) (with_block world 2_600 c))
      × IsRecords c 0 es'
      × (listed es' ≡ without (b'.' ∷ []) (listed (dot ∷ a ∷ b ∷ []))))
    ⊎ ((dot.size < used a)
        × (remove_entry root (place_at world.fs 2_600 0 0 minus_one) world ≡ crash))
unfolding same
remove_first_example =
    remove_first world root 2_600 0 (omega arith) (b'.' ∷ []) dot a (b ∷ [])
      (dot-IsRecord, (a-IsRecord, (b-IsRecord, refl))) refl
