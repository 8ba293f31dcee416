-- ===== src/Resolve/Tests.antt =====
-- The resolution of the path "/f", whose one parent is "/".
use file_system_fuse.Base.{ℕ, ◌≡◌, ◌≤◌, ◌<◌, List, length}
use file_system_fuse.FilePath.{Chars}
use file_system_fuse.Samples.{name}
use file_system_fuse.Resolve.{get_inode_num_from_path}
use file_system_fuse.Resolve.Fuel.{IsParents, resolve_along, get_inode_num_from_path-along}

get_inode_num_from_path-along_example :
    (parents : List Chars) × IsParents name parents
    × (length parents ≤ 2)
    × ((fuel : ℕ)
        → length parents < fuel
        → get_inode_num_from_path fuel name ≡ resolve_along name parents)
get_inode_num_from_path-along_example = get_inode_num_from_path-along name
