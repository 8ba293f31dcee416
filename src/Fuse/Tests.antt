-- ===== src/Fuse/Tests.antt =====
-- A path that is missing, and a directory whose mode is changed.
use file_system_fuse.Base.{none, ◌≡◌, refl, none, arith}
use file_system_fuse.Base.Ssize.{sle, minus_one, slt}
use file_system_fuse.Bytes.{load, load_words}
use file_system_fuse.Disk.{read_block}
use file_system_fuse.FilePath.{get_parent_id, parent_id_from, same, get_parent_path, get_child_name}
use file_system_fuse.Inode.{to_words, is_valid_inum, from_words, Inode, read_inode, load_inode}
use file_system_fuse.Inode.Layout.{Fits}
use file_system_fuse.Inode.Store.{IsGeometry, inode_at, with_inode, inode_at_self}
use file_system_fuse.Directory.{find_file}
use file_system_fuse.State.{done}
use file_system_fuse.Cache.{get_cache, find_key, hash_index, find_node}
use file_system_fuse.World.{World}
use file_system_fuse.Resolve.{get_inode_num_from_path, resolve_child}
use file_system_fuse.Samples.{file, zeros, zeros-IsGeometry, name, cache, world_with, resolved}
use file_system_fuse.Resolve.Kept.{resolution_reads}
use file_system_fuse.Fuse.{no_stat, inode_to_stdbuff, charm_chmod, charm_getattr}
use file_system_fuse.Fuse.Modes.{after_chmod, charm_getattr-charm_chmod}

-- Nothing is in the cache.
abbrev empty : World
empty = record {
  fs = zeros;
  cache = record cache { node = λ _. none; map = λ _. 0; head = 0; tail = 0; size = 0 };
  now = λ i. i;
  calls = 0;
}

empty-missing : get_inode_num_from_path 2 name empty ≡ done minus_one empty
unfolding get_inode_num_from_path resolve_child get_cache find_key hash_index find_node same slt
    get_parent_path get_child_name get_parent_id parent_id_from read_inode read_block load_inode
    find_file is_valid_inum sle from_words load_words load
empty-missing = refl

abbrev folder : Inode
folder = record file { mode = 0o040775 }

folder-Fits : Fits folder
unfolding to_words
folder-Fits = record { directs = refl; words = omega arith; mode = omega arith }

-- The disk has the directory as inode 5.
abbrev with_folder : World
with_folder = world_with (with_inode zeros 5 folder) 0

with_folder-IsGeometry : IsGeometry with_folder.fs.super_block
unfolding with_inode
with_folder-IsGeometry = record { per_block = refl; count = refl }

folder_inode : inode_at with_folder.fs 5 ≡ folder
folder_inode = inode_at_self zeros 5 folder zeros-IsGeometry (omega arith) folder-Fits

charm_getattr-charm_chmod_example :
    (charm_chmod 1 name 0o040700 with_folder ≡ done 0 (after_chmod with_folder 5 0o040700))
    × (charm_getattr 1 name (after_chmod with_folder 5 0o040700)
        ≡ done
            (
              0,
              record (inode_to_stdbuff (inode_at with_folder.fs 5) no_stat) {
                st_ino = 5;
                st_mode = 0o040700;
              },
            )
            (after_chmod with_folder 5 0o040700))
charm_getattr-charm_chmod_example =
    charm_getattr-charm_chmod 1 name with_folder with_folder 5 (resolved with_folder.fs 0)
      with_folder-IsGeometry (omega arith) (rw folder_inode folder-Fits) 0o040700 (omega arith)
      (after_chmod with_folder 5 0o040700) (resolved (after_chmod with_folder 5 0o040700).fs 0)

resolution_reads_example : empty.fs ≡ empty.fs
resolution_reads_example = resolution_reads 2 name empty empty minus_one empty-missing
