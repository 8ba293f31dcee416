-- ===== src/Operations/MknodTests.antt =====
-- The file "/f" is made in the root directory, which has the entry ".".
use file_system_fuse.Base.{
  false, ℕ, ◌+◌, ◌<◌, ◌≡◌, ◌≢◌, ◌∙◌, refl, ap, true, List, [], ◌∷◌, Option, none, some, arith,
  if◌then◌else◌,
}
use file_system_fuse.Fs.{write, Fs, ok}
use file_system_fuse.World.{World}
use file_system_fuse.Bytes.{load_words, load}
use file_system_fuse.Directory.{FilePos}
use file_system_fuse.Directory.Records.{Entry}
use file_system_fuse.Directory.Names.{number_of}
use file_system_fuse.FreeList.{inode_b_count}
use file_system_fuse.FreeList.Chain.{free_count}
use file_system_fuse.FilePath.{Chars}
use file_system_fuse.Operations.{custom_mknod}
use file_system_fuse.Operations.NewFile.{created}
use file_system_fuse.Inode.Store.{IsInum}
use file_system_fuse.Fs.{SuperBlock}
use file_system_fuse.State.{done}
use file_system_fuse.Base.Ssize.{minus_one, slt}
use file_system_fuse.FilePath.{
  parent_id_from, get_parent_id, Chars, get_parent_path, get_child_name, same,
}
use file_system_fuse.Inode.{from_words, load_inode, Inode, to_words}
use file_system_fuse.Inode.Layout.{Fits}
use file_system_fuse.Inode.Store.{inode_at_ne, read_inode-at}
use file_system_fuse.Directory.{find_file}
use file_system_fuse.Directory.Names.{names, number}
use file_system_fuse.Directory.Enter.{IsDirectory, IsDirectory-kept, find_file-names}
use file_system_fuse.Resolve.{get_inode_num_from_path, resolve_child}
use file_system_fuse.Cache.{Cache, get_cache, find_key, hash_index, find_node}
use file_system_fuse.Directory.AddingTests.{
  disk_of_dot, root-IsDirectory, block, entries, f, none_of,
}
use file_system_fuse.Directory.Tests.{root}
use file_system_fuse.Inode.Store.{
  with_inode, IsGeometry, inode_at, inode_at_self, disk_with_inode, super_with_inode,
}
use file_system_fuse.Operations.Mknod.{custom_mknod-Created}

-- No path is in the cache.
abbrev empty_cache : Cache
empty_cache = record {
  node = λ p. none;
  fresh = 1;
  head = 0;
  tail = 0;
  size = 0;
  capacity = 10;
  map = λ _. 0;
}

root-Fits : Fits root
unfolding to_words
root-Fits = record { directs = refl; words = omega arith; mode = omega arith }

dot-IsGeometry : IsGeometry disk_of_dot.super_block
dot-IsGeometry = record { per_block = refl; count = refl }

abbrev fs : Fs
fs = with_inode disk_of_dot 2 root

abbrev world : World
world = record { fs = fs; cache = empty_cache; now = λ i. 1_000 + i; calls = 0 }

same_super : fs.super_block ≡ disk_of_dot.super_block
same_super = super_with_inode disk_of_dot 2 root dot-IsGeometry (omega arith) root-Fits

fs-IsGeometry : IsGeometry fs.super_block
fs-IsGeometry =
    rw (super_with_inode disk_of_dot 2 root dot-IsGeometry (omega arith) root-Fits) dot-IsGeometry

root_read : inode_at fs 2 ≡ root
root_read = inode_at_self disk_of_dot 2 root dot-IsGeometry (omega arith) root-Fits

there : IsDirectory (inode_at fs 2) fs (2_561 ∷ []) block entries
there = rw root_read (
    IsDirectory-kept root-IsDirectory
      (disk_with_inode disk_of_dot 2 root dot-IsGeometry (omega arith) root-Fits)
      (ap (λ (b : SuperBlock). b.free_list_head)
        (super_with_inode disk_of_dot 2 root dot-IsGeometry (omega arith) root-Fits)))

nowhere : find_file f (inode_at fs 2) fs ≡ ok none fs
unfolding names number same
nowhere =
    let (r, run, view) = find_file-names there f in
    run ∙ rw (none_of r (view ∙ ap (λ (i : Inode). names entries i.num_blocks 0 f) root_read)) refl

abbrev path : Chars
path = b'/' ∷ f

split : get_parent_path path ≡ some (b'/' ∷ [])
unfolding get_parent_path get_parent_id parent_id_from
split = refl

child_split : get_child_name path ≡ some f
unfolding get_child_name get_parent_id parent_id_from
child_split = refl

unresolved : get_inode_num_from_path 2 path world ≡ done minus_one world
unfolding get_inode_num_from_path resolve_child get_cache find_key hash_index find_node same slt
    get_parent_path get_parent_id parent_id_from get_child_name
unresolved = rw (read_inode-at fs 2 fs-IsGeometry (omega arith), nowhere) refl

parent_found : get_inode_num_from_path 2 (b'/' ∷ []) world ≡ done 2 world
unfolding get_inode_num_from_path same
parent_found = refl

-- An inode of zeros.
abbrev unused : Inode
unused = record {
  direct_blocks = 0 ∷ 0 ∷ 0 ∷ 0 ∷ 0 ∷ 0 ∷ 0 ∷ 0 ∷ 0 ∷ 0 ∷ [];
  single_indirect = 0;
  double_indirect = 0;
  triple_indirect = 0;
  link_count = 0;
  file_size = 0;
  num_blocks = 0;
  allocated = false;
  user_id = 0;
  group_id = 0;
  mode = 0;
  access_time = 0;
  creation_time = 0;
  modification_time = 0;
  status_change_time = 0;
}

unused-Fits : Fits unused
unfolding to_words
unused-Fits = record { directs = refl; words = omega arith; mode = omega arith }

unused_read : inode_at disk_of_dot 3 ≡ unused
unfolding inode_at write load_inode load_words load from_words
unused_read = refl

-- The inode number of the new file.
abbrev child : ℕ
child = fs.super_block.latest_inum

latest : child ≡ 3
latest = ap (λ (b : SuperBlock). b.latest_inum) same_super

not_yet_used : inode_at fs child ≡ unused
not_yet_used =
    ap (inode_at fs) latest
    ∙ inode_at_ne disk_of_dot 2 root dot-IsGeometry (omega arith) root-Fits 3 (omega arith)
    ∙ unused_read

custom_mknod-Created_example :
    (fs' : Fs) × (ns' : List ℕ) × (blk' : ℕ → ℕ) × (ents' : ℕ → List Entry) × (custom_mknod 2 path
        0o100644 0 world
      ≡ done true (record world { fs = fs'; calls = 1 }))
    × (inode_at fs' child ≡ created 1_000 0o100644 (inode_at fs child))
    × IsDirectory (inode_at fs' 2) fs' ns' blk' ents'
    × ((q : Chars)
        → (r : Option FilePos) × (r' : Option FilePos) × (find_file q (inode_at fs 2) fs ≡ ok r fs)
          × (find_file q (inode_at fs' 2) fs' ≡ ok r' fs')
          × (number_of r' ≡ (if same q f then some child else number_of r)))
    × ((m : ℕ) → IsInum m → m ≢ 2 → m ≢ child → inode_at fs' m ≡ inode_at fs m)
    × ((a : ℕ)
        → inode_b_count < a
        → free_count fs.disk (2_561 ∷ []) a ≡ 0
        → ((k : ℕ) → k < (inode_at fs 2).num_blocks → a ≢ block k)
        → fs'.disk a ≡ fs.disk a)
    × IsGeometry fs'.super_block
custom_mknod-Created_example =
    custom_mknod-Created 1 path (b'/' ∷ []) f world world world 2 split child_split parent_found
      unresolved fs-IsGeometry (omega arith) (omega (arith, latest)) (omega (arith, latest))
      (rw not_yet_used refl) (rw not_yet_used unused-Fits) there (rw root_read (omega arith))
      (rw same_super (omega arith)) (omega arith) (omega arith, tt) nowhere 0o100644 0 (omega arith)
      (omega arith)
