-- ===== src/Resolve.antt =====
-- Path resolution and the creation of files in lib/file_layer.c. Fuel is for the recursion on parent
-- paths, and for the search of `create_new_inode`.
pub mod Kept
pub mod Fuel
mod Tests
use file_system_fuse.Base.{
  ℕ, zero, suc, Bool, true, false, not, Option, none, some, List, [], ◌∷◌, ◌==◌, if◌then◌else◌,
}
use file_system_fuse.Base.Ssize.{slt, minus_one, add_ssize}
use file_system_fuse.FilePath.{Chars, same, get_parent_path, get_child_name}
use file_system_fuse.Inode.{Inode, read_inode, write_inode, create_new_inode}
use file_system_fuse.Release.{free_inode}
use file_system_fuse.Directory.{is_dir, field, find_file, add_new_entry}
use file_system_fuse.State.{Outcome, Cmd, done, no_fuel, return, bind, ◌>>=◌, ◌>>◌}
use file_system_fuse.Cache.{get_cache, set_cache}
use file_system_fuse.World.{W, on_fs, on_cache, time, need, negative, enoent, eexist, edquot}

-- `ROOT_INODE`
abbrev pub root_inode : ℕ
root_inode = 2

-- The part behind the recursive call: the child in the directory of the parent.
unfoldable pub resolve_child : (path : Chars) (parent_inode_num : ℕ) → W ℕ
resolve_child path parent_inode_num = if parent_inode_num == minus_one then return minus_one else do
  read ← on_fs (read_inode parent_inode_num)
  elim (get_child_name path) [
    | none ↦ return minus_one
    | some child_name ↦ do
      inode ← need read
      file ← on_fs (find_file child_name inode)
      elim file [
        | none ↦ return minus_one
        | some pos ↦ do
          inode_num ← on_fs (field 8 pos.start_pos pos.dblock)
          on_cache (set_cache (some path) inode_num)
          return inode_num
      ]
  ]

unfoldable pub get_inode_num_from_path : (fuel : ℕ) → Chars → W ℕ
get_inode_num_from_path zero path = λ _. no_fuel
get_inode_num_from_path (suc fuel) path = if same path (b'/' ∷ []) then return root_inode else do
  cached_inode_num ← on_cache (get_cache (some path))
  if slt 0 cached_inode_num then return cached_inode_num else elim (get_parent_path path) [
    | none ↦ return minus_one
    | some parent_path ↦ do
      parent_inode_num ← get_inode_num_from_path fuel parent_path
      resolve_child path parent_inode_num
  ]

-- The end of `create_new_file`: the parent is written with new times, and the child is read and set
-- up in memory.
unfoldable pub finish_file :
    (parent_inode_num child_inode_num mode : ℕ) → Inode → W (ℕ × Option Inode)
finish_file parent_inode_num child_inode_num mode parent_inode = do
  curr_time ← time
  written ← on_fs (
      write_inode parent_inode_num (record parent_inode {
        modification_time = curr_time;
        status_change_time = curr_time;
        access_time = curr_time;
      }))
  if not written then return (minus_one, none) else do
    read ← on_fs (read_inode child_inode_num)
    child ← need read
    return (
      child_inode_num,
      some (record child {
        link_count = add_ssize child.link_count 1;
        mode = mode;
        num_blocks = 0;
        file_size = 0;
        access_time = curr_time;
        modification_time = curr_time;
        creation_time = curr_time;
        status_change_time = curr_time;
      }),
    )

-- An inode is taken and entered in the directory.
unfoldable pub enter_file :
    (fuel parent_inode_num mode : ℕ) → Inode → (child_name : Chars) → W (ℕ × Option Inode)
enter_file fuel parent_inode_num mode parent_inode child_name = do
  child_inode_num ← on_fs (create_new_inode fuel)
  if child_inode_num == minus_one then return (negative edquot, none) else do
    (entered, changed) ← on_fs (add_new_entry parent_inode child_inode_num child_name)
    if entered
        then finish_file parent_inode_num child_inode_num mode changed
        else (do on_fs (free_inode child_inode_num); return (negative edquot, none))

-- The result, and `*buff` as the function leaves it; the callers pass a null pointer in.
unfoldable pub create_new_file : (fuel : ℕ) → Chars → (mode : ℕ) → W (ℕ × Option Inode)
create_new_file fuel path mode = elim (get_parent_path path) [
  | none ↦ return (negative enoent, none)
  | some parent_path ↦ do
    parent_inode_num ← get_inode_num_from_path fuel parent_path
    if parent_inode_num == minus_one then return (negative enoent, none) else do
      child_inode_num ← get_inode_num_from_path fuel path
      if not (child_inode_num == minus_one) then return (negative eexist, none) else do
        read ← on_fs (read_inode parent_inode_num)
        parent_inode ← need read
        if not (is_dir parent_inode.mode)
            then return (negative enoent, none)
            else elim (get_child_name path) [
              | none ↦ return (minus_one, none)
              | some child_name ↦ enter_file fuel parent_inode_num mode parent_inode child_name
            ]
]
