-- ===== src/Truncate.antt =====
-- `remove_dblocks_from_inode` of lib/file_layer.c: a file is cut off at a block.
pub mod Range
pub mod Single
pub mod Overrun
mod Tests
use file_system_fuse.Base.{
  ℕ, zero, suc, ◌+◌, ◌-◌, ◌*◌, ◌/◌, ◌%◌, Bool, true, false, not, ◌&&◌, List, [], ◌∷◌, ◌==◌,
  if◌then◌else◌, ltb, leb,
}
use file_system_fuse.Base.Ssize.{slt, sle}
use file_system_fuse.Fs.{Fs, M, pure, ◌>>=◌, ◌>>◌}
use file_system_fuse.FreeList.{free_dblock}
use file_system_fuse.Inode.{Inode, direct_b_count}
use file_system_fuse.FileMap.{
  single_count, double_count, single_end, double_end, read_addresses, address_at,
}
use file_system_fuse.Release.{
  remove_single_indirect, remove_double_indirect, remove_range, remove_directs,
}

-- How many addresses from `offset` on are to go, of `total`, as each of the three ranges counts
-- them: `small` is what is compared with the room behind `offset`.
abbrev pub count_to_free : (offset small total : ℕ) → ℕ
count_to_free offset small total =
    if ltb small (single_count - offset) then total - offset else single_count - offset

-- The branches. The file has `curr_blocks` blocks, which is more than `fblock_num`, and the number
-- of its blocks is set already.
unfoldable pub cut_direct : Inode → (fblock_num curr_blocks : ℕ) → M Inode
cut_direct inode fblock_num curr_blocks = do
  cut ← remove_directs direct_b_count fblock_num curr_blocks inode
  if sle curr_blocks direct_b_count then pure cut else do
    remove_single_indirect cut.single_indirect
    if sle curr_blocks single_end then pure (record cut { single_indirect = 0 }) else do
      remove_double_indirect cut.double_indirect
      if sle curr_blocks double_end
          then pure (record cut { single_indirect = 0; double_indirect = 0 })
          else do
            remove_double_indirect cut.triple_indirect
            pure (record cut { single_indirect = 0; double_indirect = 0; triple_indirect = 0 })

unfoldable pub cut_single : Inode → (fblock_num curr_blocks : ℕ) → M Inode
cut_single inode fblock_num curr_blocks = do
  buff ← read_addresses inode.single_indirect
  let offset = fblock_num - direct_b_count
  let total = curr_blocks - direct_b_count
  remove_range (count_to_free offset total total) offset buff free_dblock
  if sle curr_blocks single_end then pure inode else do
    remove_double_indirect inode.double_indirect
    pure (record inode { double_indirect = 0 })

-- The single indirect block `single` in which the cut lies, whole or from `single_offset` on.
unfoldable pub cut_boundary : (single_offset single : ℕ) → M (Unit {0})
cut_boundary single_offset single =
    if single_offset == 0 then remove_single_indirect single >> pure tt else do
      addresses ← read_addresses single
      remove_range (single_count - single_offset) single_offset addresses free_dblock

unfoldable pub cut_double : Inode → (fblock_num curr_blocks : ℕ) → M Inode
cut_double inode fblock_num curr_blocks = do
  buff ← read_addresses inode.double_indirect
  let double_offset = (fblock_num - single_end) / single_count
  let single_offset = (fblock_num - single_end) % single_count
  let total = curr_blocks - single_end
  single ← address_at buff double_offset
  cut_boundary single_offset single
  remove_range (count_to_free double_offset (total / single_count) total - 1) (double_offset + 1)
      buff remove_single_indirect
  pure inode

unfoldable pub cut_triple : Inode → (fblock_num curr_blocks : ℕ) → M Inode
cut_triple inode fblock_num curr_blocks = do
  buff ← read_addresses inode.triple_indirect
  let offset = fblock_num - double_end
  let triple_offset = offset / double_count
  let double_offset = offset / single_count % single_count
  let single_offset = offset % single_count
  let total = curr_blocks - double_end
  double ← address_at buff triple_offset
  if (single_offset == 0) && (double_offset == 0)
      then remove_double_indirect double >> pure tt
      else (if single_offset == 0
          then (do
            singles ← read_addresses double
            remove_range (single_count - double_offset) double_offset singles
                remove_single_indirect)
          else (do
            singles ← read_addresses double
            single ← address_at singles double_offset
            addresses ← read_addresses single
            remove_range (single_count - single_offset) single_offset addresses free_dblock
            remove_range (single_count - (double_offset + 1)) (double_offset + 1) singles
                remove_single_indirect))
  remove_range (count_to_free triple_offset total total - 1) (triple_offset + 1) buff
      remove_double_indirect
  pure inode

-- The result, and the inode as the function leaves it.
unfoldable pub remove_dblocks_from_inode : Inode → ℕ → M (Bool × Inode)
remove_dblocks_from_inode inode fblock_num =
    if sle inode.num_blocks fblock_num then pure (false, inode) else do
      let curr_blocks = inode.num_blocks
      let cut = record inode { num_blocks = fblock_num }
      done ←
          if sle fblock_num direct_b_count
          then cut_direct cut fblock_num curr_blocks
          else if sle fblock_num single_end
          then cut_single cut fblock_num curr_blocks
          else if sle fblock_num double_end
          then cut_double cut fblock_num curr_blocks
          else cut_triple cut fblock_num curr_blocks
      pure (true, done)
